-- ===== src/Tests/Ledger.antt =====
-- src/reconcile and src/api/state at concrete inputs: an MPT that is created, spent and deleted.
use xrpl_registrar.Common.{String, ◌≡◌, refl, true, none, List, [], ◌∷◌, if◌then◌else◌}
use xrpl_registrar.Common.Dict.{Dict, lookup, insert}
use xrpl_registrar.Common.Int.{ℤ, pos, ◌+ℤ◌, ◌-ℤ◌}
use xrpl_registrar.Common.Sort.{sort, insert_sorted}
use xrpl_registrar.Common.Text.{eq, one_of}
use xrpl_registrar.Common.BigInt.{big_int}
use xrpl_registrar.Json.{
  Fields, nil, item, array, string, number, object, end, field, get, as_record, as_string, as_array,
}
use xrpl_registrar.Meta.{affected_node, affected_nodes, after_fields}
use xrpl_registrar.State.Reconstruct.{
  MetaEntry, extract_node, extract_nodes, is_newer, touch, touch_all, latest_from, latest_by_id,
}
use xrpl_registrar.State.Reconstruct.Latest.{touches, IsLatest, latest_by_id-IsLatest}
use xrpl_registrar.Reconcile.MptDeltas.{
  mpt_node, prev_amount, amount, mpt_deltas, deltas_of, push_delta, node_delta,
}
use xrpl_registrar.Reconcile.MptHistory.{
  mpt_predicate, object_balance, sum_for, total_for, Continues,
}
use xrpl_registrar.Reconcile.MptConservation.{total_for-latest}
use xrpl_registrar.Reconcile.Reconciler.{Runs, run_mpt}
use xrpl_registrar.Reconcile.Reconciler.Agreement.{report_on, difference, run_mpt-report_on}

-- The object's index is the account itself.
abbrev index_of : String → String
index_of account = account

index_distinct : (a b : String) → index_of a ≡ index_of b → a ≡ b
index_distinct a b h = h

abbrev fields_of : String → String → Fields
fields_of account amount_text =
    field "Account" (string account)
      (field "MPTokenIssuanceID" (string "00A1") (field "MPTAmount" (string amount_text) end))

abbrev meta_of : String → Fields → Fields
meta_of change node =
    field "AffectedNodes" (array (item (object (field change (object node) end)) nil)) end

abbrev token_node : String → Fields → Fields
token_node account rest =
    field "LedgerEntryType" (string "MPToken") (field "LedgerIndex" (string account) rest)

abbrev opens : MetaEntry
opens = record {
  ledger_index = 10;
  transaction_index = 0;
  meta =
      meta_of "CreatedNode"
        (token_node "rAlice" (field "NewFields" (object (fields_of "rAlice" "7")) end));
}

abbrev spends : MetaEntry
spends = record {
  ledger_index = 11;
  transaction_index = 3;
  meta = meta_of "ModifiedNode" (
      token_node "rAlice" (
        field "PreviousFields" (object (field "MPTAmount" (string "7") end))
          (field "FinalFields" (object (fields_of "rAlice" "4")) end)));
}

abbrev closes : MetaEntry
closes = record {
  ledger_index = 12;
  transaction_index = 1;
  meta =
      meta_of "DeletedNode"
        (token_node "rAlice" (field "FinalFields" (object (fields_of "rAlice" "4")) end));
}

abbrev history : List MetaEntry
history = opens ∷ spends ∷ closes ∷ []

-- A lock changes the flags of a token alone, so that its PreviousFields have no MPTAmount.
abbrev locks : MetaEntry
locks = record {
  ledger_index = 11;
  transaction_index = 3;
  meta = meta_of "ModifiedNode" (
      token_node "rAlice" (
        field "PreviousFields" (object (field "Flags" (number (pos 0)) end))
          (field "FinalFields" (object (fields_of "rAlice" "7")) end)));
}

-- The locked balance is counted twice.
locked_twice :
    (total_for "00A1" "rAlice" (opens ∷ locks ∷ []) ≡ pos 14)
    × (object_balance (lookup "rAlice" (latest_by_id (mpt_predicate "00A1") (opens ∷ locks ∷ [])))
        ≡ pos 7)
unfolding mpt_node extract_node extract_nodes affected_nodes affected_node after_fields get
    as_record as_string as_array eq object_balance prev_amount lookup is_newer touch_all amount
    touch big_int mpt_predicate insert total_for latest_by_id ◌+ℤ◌ sum_for mpt_deltas deltas_of
    push_delta node_delta ◌-ℤ◌ latest_from
locked_twice = (refl, refl)

history-Continues : Continues "00A1" index_of [] history
unfolding mpt_node extract_node extract_nodes affected_nodes affected_node after_fields get
    as_record as_string as_array eq object_balance prev_amount lookup is_newer touch_all amount
    touch big_int mpt_predicate insert
history-Continues = (
  ((refl, tt, refl), tt),
  (((refl, (refl, refl), refl), tt), (((refl, (refl, refl), refl), tt), tt)),
)

total_for-latest_example :
    total_for "00A1" "rAlice" history
    ≡ object_balance (lookup "rAlice" (latest_by_id (mpt_predicate "00A1") history))
total_for-latest_example =
    total_for-latest "00A1" index_of index_distinct "rAlice" history history-Continues

latest_by_id-IsLatest_example :
    IsLatest
      (mpt_predicate "00A1")
      "rAlice"
      (touches history)
      (lookup "rAlice" (latest_by_id (mpt_predicate "00A1") history))
latest_by_id-IsLatest_example = latest_by_id-IsLatest (mpt_predicate "00A1") "rAlice" history

abbrev print_some : ℤ → String
print_some n = "n"

abbrev summed : Dict ℤ
summed = ("rAlice", pos 4) ∷ ("rBob", pos 9) ∷ []

abbrev rebuilt : Dict ℤ
rebuilt = ("rAlice", pos 4) ∷ []

abbrev no_runs : Runs
no_runs = record { rows = []; next_id = 1 }

abbrev alice_only : List String
alice_only = "rAlice" ∷ []

run_mpt-report_on_example :
    report_on "rBob" (run_mpt print_some 1 summed rebuilt alice_only no_runs).1.discrepancies
    ≡ (if one_of "rBob" alice_only then difference print_some summed rebuilt "rBob" else none)
run_mpt-report_on_example = run_mpt-report_on print_some 1 summed rebuilt alice_only no_runs "rBob"

run_passes : (run_mpt print_some 1 summed rebuilt alice_only no_runs).1.passed ≡ true
unfolding run_mpt sort eq insert_sorted lookup
run_passes = refl
