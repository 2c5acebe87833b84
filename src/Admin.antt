-- ===== src/Admin.antt =====
-- src/admin: the operator's operations on issuances, and the ingestion of one.
pub mod Deletion
pub mod Orchestrator
pub mod Status
pub mod Activity
