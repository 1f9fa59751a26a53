-- ===== src/Tests.antt =====
-- Concrete inputs, and the theorems applied to them.
mod Data
mod Policy
mod Enforcement
mod Audit
mod Label
mod Admin
mod Transport
mod Secured
mod Model
mod Query
mod Binding
mod Transfer
mod Packages
mod Envelopes
