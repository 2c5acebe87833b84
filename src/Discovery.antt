-- ===== src/Discovery.antt =====
-- src/discovery: the accounts of an issuance, as its history shows them.
pub mod Earliest
pub mod Entries
pub mod Traversal
pub mod Pages
pub mod Scans
pub mod Discover
