-- ===== src/Util.antt =====
-- src/util.js: the names, versions and texts that every route validates.
pub mod Regex
pub mod Names
pub mod Versions
pub mod Text
