-- ===== src/Api/Scope.antt =====
-- src/api/scope.ts: what is in scope, and how complete it is.
use xrpl_registrar.Common.{
  ℕ, min, max, String, Bool, true, false, Option, none, some, List, [], ◌∷◌, ◌++◌, map, or_else,
  keep_if,
}
use xrpl_registrar.Common.Int.{pos}
use xrpl_registrar.Common.Text.{eq}
use xrpl_registrar.Common.Dict.{lookup}
use xrpl_registrar.Backfill.Worker.{CoverageRow}
use xrpl_registrar.Db.Issuances.{IssuanceKind, IssuanceRecord, Issuances, mpt, iou, list_issuances}
use xrpl_registrar.Db.Transactions.{Archive, TransactionRow, seen_link}
use xrpl_registrar.Json.{
  Value, Items, Fields, nil, item, end, field, null, number, string, array, object,
}

-- The tables that the read methods query; `ledgers` are the ledger indexes that are cached.
pub record ReadDb : Type 0 where
  pub archive : Archive
  pub coverage : List CoverageRow
  pub issuances : Issuances
  pub ledgers : List ℕ

pub record LedgerSpan : Type 0 where
  pub lo : ℕ
  pub hi : ℕ

-- SQL's `min` and `max`: NULL of no row.
unfoldable pub least_of : List ℕ → Option ℕ
least_of [] = none
least_of (n ∷ ns) = some (min n (or_else (least_of ns) n))

unfoldable pub greatest_of : List ℕ → Option ℕ
greatest_of [] = none
greatest_of (n ∷ ns) = some (max n (or_else (greatest_of ns) n))

abbrev pub span_of : Option ℕ → Option ℕ → Option LedgerSpan
span_of (some lo) (some hi) = some (record { lo = lo; hi = hi })
span_of _ _ = none

abbrev has_account : Option (Option ℕ) → Bool
has_account none = false
has_account (some ledger) = true

unfoldable pub in_scope : ReadDb → String → Bool
in_scope db address = has_account (lookup address db.archive.accounts)

unfoldable pub coverage_rows : ReadDb → String → List CoverageRow
coverage_rows db address = keep_if (λ r. eq r.address address) db.coverage

unfoldable pub account_coverage : ReadDb → String → Option LedgerSpan
unfolding coverage_rows least_of greatest_of
account_coverage db address =
    let rows = coverage_rows db address in
    span_of (least_of (map (λ r. r.from_ledger) rows)) (greatest_of (map (λ r. r.to_ledger) rows))

-- `account_transactions at JOIN transactions t ON t.hash = at.hash WHERE at.address = $1`
unfoldable pub account_rows : ReadDb → String → List TransactionRow
account_rows db address =
    keep_if (λ t. seen_link (t.hash, address) db.archive.account_transactions)
      db.archive.transactions

unfoldable pub latest_ledger : ReadDb → ℕ
unfolding greatest_of
latest_ledger db =
    or_else (greatest_of (db.ledgers ++ map (λ t. t.ledger_index) db.archive.transactions)) 0

unfoldable pub account_data_range : ReadDb → String → Option LedgerSpan
unfolding account_rows least_of greatest_of
account_data_range db address =
    let ledgers = map (λ t. t.ledger_index) (account_rows db address) in
    span_of (least_of ledgers) (greatest_of ledgers)

abbrev kind_text : IssuanceKind → String
kind_text mpt = "mpt"
kind_text iou = "iou"

-- `...(value !== null ? { [key]: value } : {})`
abbrev pub unless_null : String → Option String → Fields → Fields
unless_null key none rest = rest
unless_null key (some s) rest = field key (string s) rest

abbrev issuance_summary : IssuanceRecord → Value
issuance_summary r = object (
    field "id" (number (pos r.id)) (
      field "kind" (string (kind_text r.kind)) (
        unless_null "mptIssuanceId" r.mpt_issuance_id
          (unless_null "currency" r.currency (unless_null "issuer" r.issuer_account end)))))

abbrev pub to_items : List Value → Items
to_items [] = nil
to_items (v ∷ vs) = item v (to_items vs)

abbrev coverage_summary : Option LedgerSpan → Value
coverage_summary none = null
coverage_summary (some s) =
    object (field "min" (number (pos s.lo)) (field "max" (number (pos s.hi)) end))

unfoldable pub summarize : ReadDb → Value
unfolding least_of greatest_of
summarize db = object (
    field "issuances" (array (to_items (map issuance_summary (list_issuances db.issuances)))) (
      field "coverage"
        (coverage_summary (
          span_of (least_of (map (λ r. r.from_ledger) db.coverage))
            (greatest_of (map (λ r. r.to_ledger) db.coverage))))
        end))
