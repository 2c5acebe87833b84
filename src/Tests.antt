-- ===== src/Tests.antt =====
-- The theorems at concrete inputs: metadata, requests, ledgers and jobs as the code meets them.
mod Clio
mod Tail
mod Tables
mod Ledger
mod Answers
mod Resuming
mod Finding
mod Reading
mod Tally
mod Starting
mod Statement
mod Codes
mod Owed
mod Again
mod Deleting
mod Ingesting
