-- ===== src/Tests.antt =====
-- Sample data, and each theorem with hypotheses applied to it.
pub mod Tags
pub mod Data
pub mod Moves
pub mod Versions
pub mod Requests
pub mod Limits
pub mod Exchanges
pub mod Webhooks
pub mod Accounts
pub mod Storage
pub mod Admin
pub mod Configuration
