-- ===== src/Tests/Finding.antt =====
-- src/discovery at concrete inputs.
use xrpl_registrar.Common.{
  ℕ, String, ◌≡◌, refl, ◌↔◌, true, Option, none, some, List, [], ◌∷◌, if◌then◌else◌,
}
use xrpl_registrar.Common.Text.{eq, lt, one_of}
use xrpl_registrar.Json.{string, object, end, field, as_record, get, as_string}
use xrpl_registrar.Discovery.Entries.{
  AccountTxEntry, is_mpt_related, mpt_parties, tx_matches, amount_matches, mpt_node_owners,
  tx_parties,
}
use xrpl_registrar.Common.Dict.{insert, lookup}
use xrpl_registrar.Common.Set.{add, add_each}
use xrpl_registrar.Common.Sort.{sort, insert_sorted}
use xrpl_registrar.Discovery.Traversal.{
  traversal, walk, start, expand, visit_entries, visit_parties, enqueue_party,
}
use xrpl_registrar.Discovery.Traversal.Reached.{Reaches}
use xrpl_registrar.Discovery.Traversal.Walk.{stays_in, is_closed}
use xrpl_registrar.Discovery.Traversal.Found.{traversal_terminates, traversal-Reaches, lists}
use xrpl_registrar.Discovery.Earliest.{
  DiscoveredAccount, record_earliest, replacing, trustline, to_accounts, traversal as via_traversal,
}
use xrpl_registrar.Discovery.Earliest.Sightings.{
  record_all, earliest_from, account_of, entry_of, to_accounts-record_all,
}

-- Alice is seen late, without a ledger, and early.
abbrev sightings : List (String × Option ℕ)
sightings = ("rAlice", some 90) ∷ ("rBob", none) ∷ ("rAlice", none) ∷ ("rAlice", some 40) ∷ []

to_accounts-record_all_example :
    entry_of "rAlice" (to_accounts (record_all sightings []) trustline)
    ≡ account_of trustline "rAlice" (earliest_from "rAlice" none sightings)
to_accounts-record_all_example = to_accounts-record_all "rAlice" trustline sightings

-- The issuer pays Alice, and Alice pays Bob.
abbrev payment : String → String → ℕ → AccountTxEntry
payment sender receiver ledger = record {
  tx_json = some (
      object (
        field "Account" (string sender) (
          field "Destination" (string receiver)
            (field "Amount" (object (field "mpt_issuance_id" (string "ID") end)) end))));
  meta = none;
  ledger_index = some ledger;
}

abbrev history : String → List AccountTxEntry
history account =
    if eq account "rIssuer"
    then payment "rIssuer" "rAlice" 10 ∷ []
    else if eq account "rAlice"
    then payment "rIssuer" "rAlice" 10 ∷ payment "rAlice" "rBob" 20 ∷ []
    else payment "rAlice" "rBob" 20 ∷ []

abbrev everyone : List String
everyone = "rIssuer" ∷ "rAlice" ∷ "rBob" ∷ []

closed_example : is_closed history "ID" everyone ≡ true
unfolding is_closed stays_in is_mpt_related mpt_parties eq tx_matches as_record get amount_matches
    as_string add_each mpt_node_owners tx_parties add
closed_example = refl

inside_example : one_of "rIssuer" everyone ≡ true
unfolding eq
inside_example = refl

abbrev found : List DiscoveredAccount
found =
    to_accounts (("rIssuer", some 10) ∷ ("rAlice", some 10) ∷ ("rBob", some 20) ∷ []) via_traversal

walked : traversal history "ID" 3 "rIssuer" ≡ some found
unfolding traversal walk start expand visit_entries eq is_mpt_related tx_matches as_record get
    amount_matches as_string visit_parties mpt_parties add_each mpt_node_owners tx_parties add
    insert lookup sort insert_sorted lt record_earliest replacing to_accounts enqueue_party
walked = refl

traversal_terminates_example :
    (accounts : List DiscoveredAccount) × (traversal history "ID" 3 "rIssuer" ≡ some accounts)
traversal_terminates_example =
    traversal_terminates history "ID" "rIssuer" everyone inside_example closed_example

traversal-Reaches_example :
    (lists history "ID" "rIssuer" found "rBob" ≡ true) ↔ Reaches history "ID" "rIssuer" "rBob"
traversal-Reaches_example = traversal-Reaches history "ID" "rIssuer" 3 found walked "rBob"
