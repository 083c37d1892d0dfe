-- ===== src/Interface.antt =====
-- Interfaces: the queue of announces that Interface.cpp and Transport.cpp hold back for the bandwidth
-- cap.
pub mod Announces
pub mod Spacing
pub mod Selection
mod Tests
