-- ===== src/Transfer.antt =====
-- src/transfer.js: an extension is offered to another namespace, which accepts it.
pub mod Offers
pub mod Move
pub mod Accepted
pub mod Redirects
pub mod Lookups
pub mod Charges
pub mod Arrival
pub mod Landing
pub mod Contents
pub mod Withdrawal
