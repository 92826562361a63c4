-- ===== src/Accounts.antt =====
-- Accounts: the profile of src/profile.js, and the routes of src/routes/users.js and
-- src/routes/sessions.js that write.
pub mod Profile
pub mod Signing
pub mod Updates
pub mod Deletion
