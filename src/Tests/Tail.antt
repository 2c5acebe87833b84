-- ===== src/Tests/Tail.antt =====
-- src/livetail and src/api/ledgerTime.ts at concrete inputs.
use xrpl_registrar.Common.Text.{one_of}
use xrpl_registrar.Db.Issuances.{iou}
use xrpl_registrar.Json.{Record, field, end, object, array, item, nil, string}
use xrpl_registrar.LiveTail.Scope.{issuance_scope}
use xrpl_registrar.LiveTail.Scope.Named.{Named, issuance_scope-names}
use xrpl_registrar.LiveTail.Scope.Touched.{held_by_any}
use xrpl_registrar.Meta.{affected_nodes}
use xrpl_registrar.Reconcile.Incremental.{TrackedIssuance}
use xrpl_registrar.Tests.Tally.{tally, tallied, tally-tallied, tally-has_bar}
use xrpl_registrar.Common.{
  ℕ, ◌+◌, ◌*◌, ◌≤◌, String, ◌≡◌, refl, ◌↔◌, true, Option, none, some, List, [], ◌∷◌, arith, leb,
  if◌then◌else◌, length,
}
use xrpl_registrar.LiveTail.GapTracker.{LedgerRange, create}
use xrpl_registrar.Clio.Client.{Provenance}
use xrpl_registrar.LiveTail.Tail.{
  TransactionEvent, TailInput, ledger, transaction, stop, Store, start_at, run_tail,
}
use xrpl_registrar.LiveTail.Tail.Progress.{
  ledgers_before, transactions_before, work_before, perform_all, run_tail-observe_all,
}
use xrpl_registrar.LiveTail.GapTracker.Coverage.{
  observe_all, count_ranges, highest, fresh_seen, observe_all_covers, observe_all_above,
}
use xrpl_registrar.Api.LedgerTime.{Ledgers, resolve}
use xrpl_registrar.Api.LedgerTime.Search.{up_to, IsTrue, resolve_finds}
use xrpl_registrar.Api.LedgerTime.Cost.{resolve_probes}

-- Ledgers 13 and 14 are missed, 12 comes twice.
abbrev stream : List ℕ
stream = 11 ∷ 12 ∷ 12 ∷ 15 ∷ []

observe_all_covers_example :
    ((observe_all (create (some 10)) stream).0 ≡ some 15)
    × (count_ranges 14 (observe_all (create (some 10)) stream).1
          + (if fresh_seen 10 14 stream then 1 else 0)
        ≡ 1)
unfolding highest
observe_all_covers_example = observe_all_covers 10 14 stream (omega arith) (omega arith)

observe_all_above_example : count_ranges 9 (observe_all (create (some 10)) stream).1 ≡ 0
observe_all_above_example = observe_all_above 10 9 stream (omega arith)

-- A ledger every four seconds.
abbrev close_at : ℕ → ℕ
close_at n = n * 4

abbrev clio : ℕ → Option ℕ
clio n = some (close_at n)

clio_answers : (n : ℕ) → clio n ≡ some (close_at n)
clio_answers n = refl

close_at_ordered : (m n : ℕ) → m ≤ n → close_at m ≤ close_at n
close_at_ordered m n h = omega arith

abbrev cached : Ledgers
cached = (110, 440) ∷ []

resolve_finds_example :
    (leb (close_at 103) 413 ≡ up_to 103 (resolve clio 413 (some (100, 130)) cached).answer)
    × IsTrue clio 413 close_at clio_answers close_at_ordered
        (resolve clio 413 (some (100, 130)) cached).ledgers
resolve_finds_example =
    resolve_finds clio 413 close_at clio_answers close_at_ordered 100 130 103 cached (refl, tt)
      (omega arith) (omega arith)

resolve_probes_example : (resolve clio 413 (some (100, 130)) cached).probes ≤ 5
resolve_probes_example = resolve_probes clio 413 5 100 130 cached (omega arith)

abbrev no_source : Provenance
no_source = record { source_endpoint = "http://clio"; fetched_at = "2026-01-01T00:00:00Z" }

abbrev payment : TransactionEvent
payment = record {
  hash = "AB";
  ledger_index = 12;
  tx_type = "Payment";
  tx_blob = [];
  meta_blob = [];
  accounts = "rAlice" ∷ [];
  provenance = no_source;
}

-- Ledger 13 is missed; what comes after the stop is not taken in.
abbrev tail_inputs : List TailInput
tail_inputs =
    ledger (record { ledger_index = 12; close_time_iso = some 48 })
    ∷ transaction payment
    ∷ ledger (record { ledger_index = 14; close_time_iso = none })
    ∷ stop
    ∷ transaction payment
    ∷ []

abbrev count_payments : TransactionEvent → ℕ → ℕ
count_payments ev n = n + 1

-- A gap is healed by its ledgers' deltas.
abbrev count_healed : LedgerRange → Store ℕ → Store ℕ
count_healed gap s = record s { deltas = s.deltas + gap.to_ledger }

abbrev empty_store : Store ℕ
empty_store = record {
  archive = record { transactions = []; accounts = []; account_transactions = [] };
  deltas = 0;
  times = [];
}

run_tail-observe_all_example :
    let s =
      run_tail count_payments count_healed tail_inputs
        (start_at count_payments count_healed (some 11) empty_store) in
    (s.tracker ≡ (observe_all (some 11) (ledgers_before tail_inputs)).0)
    × (s.healed ≡ (observe_all (some 11) (ledgers_before tail_inputs)).1)
    × (s.gap_count ≡ length s.healed)
    × (s.announced ≡ transactions_before tail_inputs)
    × (s.ingested ≡ length s.announced)
    × (s.store
        ≡ perform_all count_payments count_healed (work_before (some 11) tail_inputs) empty_store)
run_tail-observe_all_example =
    run_tail-observe_all count_payments count_healed (some 11) empty_store tail_inputs

-- A trust line to the issuer, of a holder on its low side.
abbrev line_meta : Record
line_meta =
    field "AffectedNodes"
      (array (
        item
          (object (
            field "ModifiedNode"
              (object (
                field "LedgerEntryType" (string "RippleState") (
                  field "FinalFields"
                    (object (
                      field "Balance"
                        (object (field "currency" (string "USD") (field "value" (string "5") end)))
                        (field "LowLimit" (object (field "issuer" (string "rHolder") end)) (
                          field "HighLimit" (object (field "issuer" (string "rIssuer") end)) end))))
                    end)))
              end))
          nil))
      end

abbrev usd : TrackedIssuance
usd = record {
  id = 3;
  kind = iou;
  mpt_issuance_id = none;
  currency = some "USD";
  issuer = some "rIssuer";
}

abbrev no_codec : List ℕ → String
no_codec bytes = ""

issuance_scope-names_example :
    (one_of "rIssuer" (issuance_scope no_codec tally (usd ∷ []) (object line_meta)) ≡ true)
    ↔ Named no_codec tally
        (usd ∷ [])
        (λ id holder. held_by_any id holder (usd ∷ []) (affected_nodes line_meta))
        "rIssuer"
issuance_scope-names_example =
    issuance_scope-names no_codec tally tallied tally-tallied tally-has_bar (usd ∷ []) line_meta
      "rIssuer"
