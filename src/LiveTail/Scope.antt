-- ===== src/LiveTail/Scope.antt =====
-- src/livetail/issuanceScope.ts and src/livetail/affected.ts: the accounts in scope that a
-- streamed transaction touches.
pub mod Touched
pub mod Named
use xrpl_registrar.Common.{
  ℕ, String, Option, none, some, List, ◌∷◌, ◌==◌, if◌then◌else◌, or_else, [],
}
use xrpl_registrar.Common.Set.{add}
use xrpl_registrar.Common.Sort.{find}
use xrpl_registrar.Common.Text.{eq, one_of}
use xrpl_registrar.Db.Issuances.{mpt, iou}
use xrpl_registrar.Json.{Value, Record, and_then, as_record, get_string, truthy}
use xrpl_registrar.Meta.{affected_node, affected_nodes, after_fields}
use xrpl_registrar.Reconcile.Incremental.{TrackedIssuance, DetectedHolder, holders_in_meta}
use xrpl_registrar.Xrpl.Mpt.{decode_mpt_issuer}

module _ (encode_account_id : List ℕ → String) (print : ℕ → String) where
  unfoldable pub issuer_of : TrackedIssuance → String
  issuer_of iss = elim iss.kind [
    | mpt ↦ decode_mpt_issuer encode_account_id (or_else iss.mpt_issuance_id "")
    | iou ↦ or_else iss.issuer ""
  ]

  -- `byId.get(id)`: of two entries with one id, the later counts.
  unfoldable pub by_id : ℕ → List TrackedIssuance → Option TrackedIssuance
  by_id id [] = none
  by_id id (iss ∷ rest) = elim (by_id id rest) [
    | none ↦ if iss.id == id then some iss else none
    | some later ↦ some later
  ]

  abbrev add_issuer : Option TrackedIssuance → List String → List String
  add_issuer none accounts = accounts
  add_issuer (some iss) accounts = add (issuer_of iss) accounts

  -- The loop over the holders.
  unfoldable pub scope_of : List TrackedIssuance → List DetectedHolder → List String → List String
  unfolding issuer_of by_id
  scope_of list [] accounts = accounts
  scope_of list (h ∷ hs) accounts =
      scope_of list hs (add_issuer (by_id h.issuance_id list) (add h.holder accounts))

  unfoldable pub issuance_scope : List TrackedIssuance → Value → List String
  unfolding scope_of
  issuance_scope list meta = elim (as_record meta) [
    | none ↦ []
    | some decoded ↦ scope_of list (holders_in_meta print decoded list) []
  ]

-- `if (value && scope.has(value)) found.add(value)`
abbrev add_if : List String → Option String → List String → List String
add_if scope none found = found
add_if scope (some a) found = if one_of a scope then add a found else found

unfoldable pub tx_accounts : List String → Record → List String → List String → List String
tx_accounts scope tx [] found = found
tx_accounts scope tx (f ∷ fs) found =
    tx_accounts scope tx fs (add_if scope (truthy (get_string f tx)) found)

abbrev owner : Value → Option String
owner raw =
    and_then (affected_node raw)
      λ n. and_then (after_fields n.node) λ fields. truthy (get_string "Account" fields)

unfoldable pub node_accounts : List String → List Value → List String → List String
node_accounts scope [] found = found
node_accounts scope (raw ∷ raws) found = node_accounts scope raws (add_if scope (owner raw) found)

abbrev from_tx : List String → Option Record → List String
from_tx scope none = []
from_tx scope (some tx) = tx_accounts scope tx ("Account" ∷ "Destination" ∷ "Holder" ∷ []) []

unfoldable pub affected_accounts : Value → Value → List String → List String
unfolding tx_accounts node_accounts
affected_accounts tx_json meta scope =
    let found = from_tx scope (as_record tx_json) in
    elim (as_record meta) [ none ↦ found | some m ↦ node_accounts scope (affected_nodes m) found ]
