-- ===== src/Model.antt =====
-- crates/mim-model: metadata of an instance, and the registry of the information model.
pub mod Metadata
pub mod Taxonomy
pub mod CodeList
pub mod Manifest
pub mod Registry
pub mod Ancestors
pub mod Integrity
