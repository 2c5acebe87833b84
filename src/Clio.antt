-- ===== src/Clio.antt =====
-- src/clio: the governed client that every upstream request goes through.
pub mod Governor
pub mod Classify
pub mod Client
