-- ===== src/Transport.antt =====
-- crates/mim-transport: the exchange of instances between brokers, and the gate before a broker.
pub mod Message
pub mod Broker
pub mod Apply
pub mod Snapshot
pub mod Secured
pub mod Gated
pub mod Lookup
pub mod Journal
pub mod Sync
pub mod Replication
pub mod Filter
pub mod Query
pub mod Paging
pub mod Matching
pub mod Selection
pub mod Render
pub mod Refusal
pub mod SecuredQuery
pub mod GatedQuery
pub mod GatedSync
pub mod Enveloped
