-- ===== src/Packages.antt =====
-- src/routes/packages.js: publishing, moderation and ownership of extensions.
pub mod Requests
pub mod Resolve
pub mod Publish
pub mod Review
pub mod Tags
pub mod Owners
pub mod Removal
pub mod Lifecycle
pub mod Transfers
pub mod Project
