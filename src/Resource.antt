-- ===== src/Resource.antt =====
-- Resources, the transfers of large data over a link: Resource.cpp, Resource.h and ResourceData.h.
pub mod State
pub mod Slots
pub mod Pace
pub mod Compression
pub mod Advert
pub mod Receiver
pub mod Sender
pub mod Serving
pub mod Watchdog
mod Tests
pub mod Delivery
pub mod Integrity
pub mod Window
pub mod PaceInv
pub mod Retry
pub mod Requests
