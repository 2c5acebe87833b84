-- ===== src/Api/AccountState.antt =====
-- src/api/methods/accountState.ts: `account_info` and `account_lines` from reconstructed state.
-- Decoding a blob is an argument.
use xrpl_registrar.Common.{
  ℕ, String, Bool, true, false, Option, none, some, List, [], ◌∷◌, map, leb, if◌then◌else◌, or_else,
  keep_if,
}
use xrpl_registrar.Common.Int.{ℤ, pos, negsuc}
use xrpl_registrar.Common.Text.{template}
use xrpl_registrar.Api.AccountTx.{as_number, max_safe_integer, range_beyond_coverage_warning}
use xrpl_registrar.Api.Responses.{Warning, ApiRequest, MethodResult, invalid_params, not_in_archive}
use xrpl_registrar.Api.Scope.{
  ReadDb, LedgerSpan, in_scope, account_coverage, account_rows, latest_ledger, greatest_of,
  summarize, to_items,
}
use xrpl_registrar.Db.Transactions.{TransactionRow}
use xrpl_registrar.Json.{
  Value, Fields, end, field, boolean, number, string, array, object, get, get_string, truthy,
}
use xrpl_registrar.State.Reconstruct.{MetaEntry}
use xrpl_registrar.State.Views.{AccountLine, decode_meta_entries, to_account_data, to_account_lines}

pub record AsOf : Type 0 where
  pub ledger_index : ℕ
  pub warnings : List Warning

unfoldable pub as_of_ledger : ReadDb → Option LedgerSpan → List MetaEntry → AsOf
as_of_ledger db (some coverage) entries = record { ledger_index = coverage.hi; warnings = [] }
as_of_ledger db none entries =
    let from_data = or_else (greatest_of (map (λ e. e.ledger_index) entries)) (latest_ledger db) in
    record {
      ledger_index = from_data;
      warnings = range_beyond_coverage_warning none (some (pos from_data)) none ∷ [];
    }

unfoldable pub ledger_limit : Fields → ℤ
ledger_limit fields = or_else (as_number (get "ledger_index" fields)) (pos max_safe_integer)

-- `t.ledger_index <= $2`
abbrev at_most : ℤ → ℕ → Bool
at_most (pos n) ledger = leb ledger n
at_most (negsuc n) ledger = false

unfoldable pub account_meta : ReadDb → String → ℤ → List TransactionRow
account_meta db address up_to =
    keep_if (λ t. at_most up_to t.ledger_index) (account_rows db address)

abbrev refused : Fields → MethodResult
refused result = record { result = result; extra_warnings = [] }

-- The checks that both methods start with.
unfoldable pub for_account : ReadDb → ApiRequest → (String → MethodResult) → MethodResult
for_account db req answer = elim (truthy (get_string "account" req.fields)) [
  | none ↦ refused (invalid_params "'account' is required")
  | some account ↦
      if in_scope db account
      then answer account
      else refused (not_in_archive (template ("Account " ∷ account ∷ [])) (summarize db))
]

module _ (decode : String → Value) where
  abbrev entries_of : ReadDb → String → Fields → List MetaEntry
  entries_of db account fields =
      decode_meta_entries decode (account_meta db account (ledger_limit fields))

  unfoldable pub account_info : ReadDb → Fields → String → MethodResult
  unfolding as_of_ledger
  account_info db fields account =
      let entries = entries_of db account fields in
      let as_of = as_of_ledger db (account_coverage db account) entries in
      elim (to_account_data entries account) [
        | none ↦
            refused (not_in_archive (template ("AccountRoot for " ∷ account ∷ [])) (summarize db))
        | some account_data ↦ record {
          result = field "status" (string "success") (
              field "account_data" (object account_data) (
                field "ledger_index" (number (pos as_of.ledger_index))
                  (field "validated" (boolean true) end)));
          extra_warnings = as_of.warnings;
        }
      ]

  unfoldable pub handle_account_info : ReadDb → ApiRequest → MethodResult
  unfolding for_account account_info
  handle_account_info db req = for_account db req (account_info db req.fields)

  abbrev line_value : AccountLine → Value
  line_value l = object (
      field "account" (string l.account) (
        field "currency" (string l.currency) (
          field "balance" (string l.balance)
            (field "limit" (string l.limit) (field "limit_peer" (string l.limit_peer) end)))))

  unfoldable pub account_lines : ReadDb → Fields → String → MethodResult
  unfolding as_of_ledger
  account_lines db fields account =
      let entries = entries_of db account fields in
      let as_of = as_of_ledger db (account_coverage db account) entries in
      record {
        result = field "status" (string "success") (
            field "account" (string account) (
              field "lines" (array (to_items (map line_value (to_account_lines entries account)))) (
                field "ledger_index" (number (pos as_of.ledger_index))
                  (field "validated" (boolean true) end))));
        extra_warnings = as_of.warnings;
      }

  unfoldable pub handle_account_lines : ReadDb → ApiRequest → MethodResult
  unfolding for_account account_lines
  handle_account_lines db req = for_account db req (account_lines db req.fields)
