-- ===== src/Runtime.antt =====
-- crates/mim-runtime: the instances that the program exchanges, and their validation.
pub mod Instance
pub mod Report
pub mod Validator
pub mod Conformance
