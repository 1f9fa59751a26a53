-- ===== src/Stanag.antt =====
-- crates/mim-stanag4778: labels bound to payloads by digests and signatures.
pub mod Binding
pub mod Assertion
pub mod DataObject
pub mod Profiles
pub mod Verified
pub mod Swapped
