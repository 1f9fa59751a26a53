-- ===== src/Ztdf.antt =====
-- crates/mim-ztdf: packages of the zero-trust data format.
pub mod Manifest
pub mod Package
pub mod Opened
