-- ===== src/Http.antt =====
-- src/errors.js: the errors that handlers throw and the answers that they become.
pub mod Errors
pub mod Answers
