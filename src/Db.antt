-- ===== src/Db.antt =====
-- src/db: the tables of the archive and the statements that write them.
pub mod Chunks
pub mod Transactions
pub mod Jobs
pub mod Batches
pub mod Issuances
pub mod Migrate
