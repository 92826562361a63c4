-- ===== src/Access.antt =====
-- src/auth.js: who a request is from, and what that account and credential may do.
pub mod Bearer
pub mod Credentials
pub mod Ownership
pub mod Guards
pub mod Terms
pub mod Proofs
