-- ===== src/Backfill.antt =====
-- src/backfill: paging an account's history into the archive, resumably.
pub mod Pages
pub mod Worker
pub mod MapEntry
pub mod Holders
pub mod Sweep
