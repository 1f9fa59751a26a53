-- ===== src/Audit.antt =====
-- crates/mim-audit: the hash-chained audit log.
pub mod Record
pub mod Chain
pub mod Log
pub mod Linked
pub mod Integrity
