-- ===== src/MsgPack/RoundTrip.antt =====
-- What the unpackers of MsgPack.h read back from the packers' bytes, whatever stands behind them.
pub mod Words
pub mod Scalars
pub mod Blobs
pub mod Values
pub mod Skip
pub mod Whole
pub mod Exact
pub mod Payload
pub mod Envelopes
pub mod Requests
