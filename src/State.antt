-- ===== src/State.antt =====
-- src/api/state: ledger state rebuilt from metadata.
pub mod Reconstruct
pub mod Views
