-- ===== src/Packet.antt =====
-- Packets: Packet.cpp, Packet.h and the codes of Type.h.
pub mod State
pub mod Flags
pub mod Codec
pub mod FlagLaws
pub mod Unpacking
pub mod RoundTrip
pub mod Laws
pub mod Answers
pub mod Send
pub mod SendLaws
pub mod Construction
pub mod Receipt
pub mod ReceiptLaws
mod Tests
