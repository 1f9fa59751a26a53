-- ===== src/Crypto.antt =====
-- crates/mim-crypto: the NMBS binding signature, digests and ciphertexts, over a cryptographic backend.
pub mod Provider
pub mod Symmetric
pub mod Binding
