-- ===== src/Label.antt =====
-- crates/mim-labeling: confidentiality labels, their policies and security domains.
pub mod Error
pub mod Classification
pub mod Policy
pub mod Domain
pub mod Confidentiality
pub mod Security
pub mod Parsing
pub mod Validity
pub mod Bridge
