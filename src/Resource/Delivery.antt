-- ===== src/Resource/Delivery.antt =====
-- How a resource arrives: the receiver's slots as two sets of parts, and a whole transfer.
pub mod Sets
pub mod Core
pub mod Arrival
pub mod Learning
pub mod Updates
pub mod Cutting
pub mod Start
pub mod Machine
pub mod Opening
