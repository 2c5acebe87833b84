-- ===== src/Discovery/Entries.antt =====
-- src/discovery/strategies: what the scans read of one account_tx entry.
use xrpl_registrar.Common.{
  ℕ, String, Bool, true, false, not, ◌||◌, Option, none, some, List, [], ◌∷◌, or_else,
}
use xrpl_registrar.Common.Set.{add_each}
use xrpl_registrar.Json.{
  Value, Record, as_record, and_then, get_record, get_string, is_text, truthy,
}
use xrpl_registrar.Meta.{affected_node, after_fields}

-- `{ AffectedNodes?: unknown[] }`
pub record EntryMeta : Type 0 where
  pub affected_nodes : Option (List Value)

pub record AccountTxEntry : Type 0 where
  pub tx_json : Option Value
  pub meta : Option EntryMeta
  pub ledger_index : Option ℕ

-- `entry.meta?.AffectedNodes ?? []`
abbrev pub nodes_of : AccountTxEntry → List Value
nodes_of entry = or_else (and_then entry.meta (λ m. m.affected_nodes)) []

-- `asRecord(entry.tx_json)`
abbrev pub tx_of : AccountTxEntry → Option Record
tx_of entry = and_then entry.tx_json as_record

-- The texts that a loop with `continue` pushes.
abbrev pub collect {ℓ} : {A : Type ℓ} → (A → Option String) → List A → List String
collect f [] = []
collect f (x ∷ xs) = elim (f x) [ none ↦ collect f xs | some s ↦ s ∷ collect f xs ]

-- `if (test) … else continue`
abbrev pub when {ℓ} : {A : Type ℓ} → Bool → Option A → Option A
when true o = o
when false o = none

unfoldable pub node_owner : String → Value → Option String
node_owner mpt_issuance_id raw = and_then (affected_node raw) λ n.
    when (is_text (get_string "LedgerEntryType" n.node) "MPToken") (
      and_then (after_fields n.node) λ fields.
        when (is_text (get_string "MPTokenIssuanceID" fields) mpt_issuance_id)
          (truthy (get_string "Account" fields)))

unfoldable pub mpt_node_owners : AccountTxEntry → String → List String
mpt_node_owners entry mpt_issuance_id = collect (node_owner mpt_issuance_id) (nodes_of entry)

-- `["Amount", "SendMax", "DeliverMax"]`
abbrev pub amount_fields : List String
amount_fields = "Amount" ∷ "SendMax" ∷ "DeliverMax" ∷ []

-- Some amount of the transaction is in units of the issuance.
unfoldable pub amount_matches : String → Record → List String → Bool
amount_matches mpt_issuance_id tx [] = false
amount_matches mpt_issuance_id tx (f ∷ fs) =
    is_text (and_then (get_record f tx) (get_string "mpt_issuance_id")) mpt_issuance_id
    || amount_matches mpt_issuance_id tx fs

abbrev pub is_empty {ℓ} : {A : Type ℓ} → List A → Bool
is_empty [] = true
is_empty (x ∷ xs) = false

unfoldable pub tx_matches : String → Option Record → Bool
tx_matches mpt_issuance_id none = false
tx_matches mpt_issuance_id (some tx) =
    is_text (get_string "MPTokenIssuanceID" tx) mpt_issuance_id
    || amount_matches mpt_issuance_id tx amount_fields

unfoldable pub is_mpt_related : AccountTxEntry → String → Bool
is_mpt_related entry mpt_issuance_id =
    tx_matches mpt_issuance_id (tx_of entry)
    || not (is_empty (mpt_node_owners entry mpt_issuance_id))

abbrev pub party_fields : List String
party_fields = "Account" ∷ "Destination" ∷ "Holder" ∷ []

unfoldable pub tx_parties : Option Record → List String
tx_parties none = []
tx_parties (some tx) = collect (λ f. truthy (get_string f tx)) party_fields

unfoldable pub mpt_parties : AccountTxEntry → String → List String
mpt_parties entry mpt_issuance_id =
    add_each (mpt_node_owners entry mpt_issuance_id) (add_each (tx_parties (tx_of entry)) [])
