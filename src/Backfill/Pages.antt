-- ===== src/Backfill/Pages.antt =====
-- src/backfill/pages.ts: `account_tx` pages of raw binary. What Clio answers to a request is an
-- argument.
use xrpl_registrar.Common.{ℕ, String, Option, none, some, List, ltb, if◌then◌else◌}
use xrpl_registrar.Json.{Value}
use xrpl_registrar.Clio.Client.{Provenance}
use xrpl_registrar.Db.Jobs.{stored_marker}

pub record BinaryTxEntry : Type 0 where
  pub tx_blob : String
  pub meta_blob : String
  pub ledger_index : ℕ

pub record BackfillPage : Type 0 where
  pub entries : List BinaryTxEntry
  pub marker : Option Value
  pub provenance : Provenance

pub record AccountTxPageQuery : Type 0 where
  pub account : String
  pub from_ledger : Option ℕ
  pub to_ledger : Option ℕ
  pub start_marker : Option Value
  pub limit : Option ℕ

-- The request of one page; it is always forward and binary.
pub record PageRequest : Type 0 where
  pub account : String
  pub ledger_index_min : Option ℕ
  pub ledger_index_max : Option ℕ
  pub limit : Option ℕ
  pub marker : Option Value

-- A bound is sent only when it is a real ledger.
abbrev pub real_ledger : Option ℕ → Option ℕ
real_ledger none = none
real_ledger (some l) = if ltb 0 l then some l else none

unfoldable pub page_request : AccountTxPageQuery → Option Value → PageRequest
page_request query marker = record {
  account = query.account;
  ledger_index_min = real_ledger query.from_ledger;
  ledger_index_max = real_ledger query.to_ledger;
  limit = query.limit;
  marker = stored_marker marker;
}
