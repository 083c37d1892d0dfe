-- ===== src/Channel.antt =====
-- esp-idf/components/microreticulum/src/Channel.cpp and Channel.h: reliable, sequenced messages over
-- the packets of a link.
pub mod State
pub mod Window
pub mod Sender
pub mod Receiver
pub mod Order
pub mod Delivery
pub mod ExactlyOnce
pub mod WindowInv
pub mod SenderLaws
pub mod Protocol
mod Tests
