-- ===== src/Spif.antt =====
-- crates/mim-spif: security policy information files, and the labels that conform to them.
pub mod Presets
pub mod Registry
pub mod Validator
pub mod Conforming
