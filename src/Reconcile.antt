-- ===== src/Reconcile.antt =====
-- src/reconcile: balance deltas and their reconciliation with the reconstructed state.
pub mod MptDeltas
pub mod MptConservation
pub mod MptHistory
pub mod Reconciler
pub mod Iou
pub mod BalanceDeltas
pub mod Incremental
pub mod Deriver
