-- ===== src/Core.antt =====
-- crates/mim-core: values that may be nil.
pub mod Nillable
pub mod Error
pub mod Representation
