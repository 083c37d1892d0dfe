-- ===== src/MsgPack.antt =====
-- esp-idf/components/microreticulum/src/MsgPack.h: the MessagePack subset that links, resources and
-- remote management speak.
pub mod Pack
pub mod Unpack
pub mod Skip
pub mod Envelope
pub mod Reader
pub mod RoundTrip
pub mod Overflow
pub mod Blobs
mod Tests
