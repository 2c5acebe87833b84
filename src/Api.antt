-- ===== src/Api.antt =====
-- src/api: the read API over the archive.
pub mod LedgerTime
pub mod Responses
pub mod Handler
pub mod Coverage
pub mod Scope
pub mod AccountTx
pub mod Tx
pub mod AccountState
pub mod MptHolders
pub mod Reporting
pub mod GatewayBalances
