-- ===== src/Access/Proofs.antt =====
-- What src/auth.js guarantees.
pub mod Sessions
pub mod Authority
pub mod Gate
