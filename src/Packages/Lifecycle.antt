-- ===== src/Packages/Lifecycle.antt =====
-- The life of a version over the operations that write the table: publishing, review, deprecation,
-- yanking, removal and transfer.
pub mod Settled
pub mod Edits
pub mod Writes
pub mod History
