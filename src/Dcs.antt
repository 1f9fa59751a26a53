-- ===== src/Dcs.antt =====
-- crates/mim-dcs: the data-centric guard between two security domains.
pub mod Guard
pub mod Transfer
pub mod Receipt
pub mod Receiving
pub mod Releasing
pub mod Naming
