-- ===== src/Policy.antt =====
-- crates/mim-policy: the policy plane. PIP assembles a context, PDP decides over the stored
-- policies, PEP enforces and records.
pub mod Error
pub mod Context
pub mod Downgrade
pub mod Spif
pub mod Store
pub mod Pip
pub mod Pdp
pub mod Checks
pub mod Access
pub mod Intersection
pub mod Transfer
pub mod Release
pub mod Pep
pub mod Enforcement
pub mod Admin
pub mod Removal
pub mod Flag
