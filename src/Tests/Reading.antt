-- ===== src/Tests/Reading.antt =====
-- The read methods of src/api at concrete inputs.
use xrpl_registrar.Common.{ℕ, suc, String, ◌≡◌, refl, true, none, some, [], ◌∷◌, length}
use xrpl_registrar.Common.Int.{pos}
use xrpl_registrar.Common.Text.{eq}
use xrpl_registrar.Api.AccountTx.{query_of}
use xrpl_registrar.Tests.Tally.{tally, tallied, tally-tallied, tally-has_colon}
use xrpl_registrar.Api.AccountTx.Paging.{pages, whole_answer, pages-whole_answer}
use xrpl_registrar.Api.Scope.{ReadDb}
use xrpl_registrar.Db.Transactions.{TransactionRow}
use xrpl_registrar.Json.{Value, Fields, null, boolean, number, field, end}

abbrev pub stored : String → ℕ → TransactionRow
stored hash ledger = record {
  hash = hash;
  ledger_index = ledger;
  clio_ctid = none;
  close_time_iso = none;
  tx_type = "Payment";
  mpt_issuance_id = none;
  tx_blob = [];
  meta_blob = [];
  source_endpoint = "clio";
  fetched_at = "now";
}

-- Three transactions of Alice, two of them in one ledger, and one of Bob.
abbrev db : ReadDb
db = record {
  archive = record {
    transactions = stored "C" 7 ∷ stored "A" 5 ∷ stored "D" 6 ∷ stored "B" 7 ∷ [];
    accounts = ("rAlice", some 5) ∷ ("rBob", some 6) ∷ [];
    account_transactions = ("A", "rAlice") ∷ ("B", "rAlice") ∷ ("C", "rAlice") ∷ ("D", "rBob") ∷ [];
  };
  coverage = record { address = "rAlice"; from_ledger = 1; to_ledger = 9 } ∷ [];
  issuances = record { rows = []; next_id = 1 };
  ledgers = [];
}

abbrev by_two : Fields
by_two = field "limit" (number (pos 2)) (field "forward" (boolean true) end)

abbrev undecoded : String → Value
undecoded hex = null

pages-whole_answer_example :
    pages tally tallied undecoded
      (suc (length (whole_answer db (query_of db "rAlice" by_two))))
      db
      (query_of db "rAlice" by_two)
      none
    ≡ some (whole_answer db (query_of db "rAlice" by_two))
unfolding eq
pages-whole_answer_example =
    pages-whole_answer tally tallied undecoded tally-tallied tally-has_colon db "rAlice" by_two
      ((refl, (refl, (refl, tt))), ((refl, (refl, tt)), ((refl, tt), (tt, tt))))
      (refl, (refl, (refl, (refl, tt))))
