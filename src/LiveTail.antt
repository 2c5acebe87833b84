-- ===== src/LiveTail.antt =====
-- src/livetail: keeping the archive current after the backfill.
pub mod GapTracker
pub mod Tail
pub mod Scope
pub mod GapFill
