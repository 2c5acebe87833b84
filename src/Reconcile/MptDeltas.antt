-- ===== src/Reconcile/MptDeltas.antt =====
-- src/reconcile/mptDeltas.ts: the per-account MPT balance changes of one transaction.
use xrpl_registrar.Common.{String, Option, none, some, List, [], ◌∷◌, if◌then◌else◌, or_else}
use xrpl_registrar.Common.Int.{ℤ, pos, eq_ℤ, ◌-ℤ◌}
use xrpl_registrar.Common.BigInt.{big_int}
use xrpl_registrar.Common.Text.{eq}
use xrpl_registrar.Json.{
  Value, Record, get, and_then, as_string, get_record, get_string, is_text, truthy,
}
use xrpl_registrar.Meta.{
  Change, created, modified, deleted, affected_node, affected_nodes, after_fields,
}

pub record AccountDelta : Type 0 where
  pub account : String
  pub delta : ℤ

-- `amount(value)`: 0 for what is missing, empty or no integer.
unfoldable pub amount : Option Value → ℤ
amount value = elim (and_then value as_string) [
  | none ↦ pos 0
  | some s ↦ if eq s "" then pos 0 else or_else (big_int s) (pos 0)
]

-- The balance before the transaction.
unfoldable pub prev_amount : Change → Record → Record → ℤ
prev_amount created node fields = pos 0
prev_amount modified node fields =
    amount (and_then (get_record "PreviousFields" node) (get "MPTAmount"))
prev_amount deleted node fields = amount (get "MPTAmount" fields)

-- The balance after it.
unfoldable pub final_amount : Change → Record → ℤ
final_amount created fields = amount (get "MPTAmount" fields)
final_amount modified fields = amount (get "MPTAmount" fields)
final_amount deleted fields = pos 0

-- A node of the issuance, with the account it belongs to.
pub record MptNode : Type 0 where
  pub change : Change
  pub node : Record
  pub fields : Record
  pub account : String

-- The guards of the loop: each `continue` is `none`.
unfoldable pub mpt_node : String → Value → Option MptNode
mpt_node id raw = and_then (affected_node raw) λ n.
    if is_text (get_string "LedgerEntryType" n.node) "MPToken"
    then and_then (after_fields n.node) (λ fields.
      if is_text (get_string "MPTokenIssuanceID" fields) id
      then and_then (truthy (get_string "Account" fields)) (λ account.
        some (record { change = n.change; node = n.node; fields = fields; account = account }))
      else none)
    else none

unfoldable pub node_delta : MptNode → ℤ
unfolding prev_amount final_amount
node_delta n = final_amount n.change n.fields -ℤ prev_amount n.change n.node n.fields

-- `if (delta !== 0n) deltas.push(…)`
unfoldable pub push_delta : Option MptNode → List AccountDelta → List AccountDelta
push_delta none rest = rest
push_delta (some n) rest =
    if eq_ℤ (node_delta n) (pos 0)
    then rest
    else record { account = n.account; delta = node_delta n } ∷ rest

unfoldable pub deltas_of : String → List Value → List AccountDelta
deltas_of id [] = []
deltas_of id (raw ∷ raws) = push_delta (mpt_node id raw) (deltas_of id raws)

unfoldable pub mpt_deltas : Record → String → List AccountDelta
mpt_deltas meta id = deltas_of id (affected_nodes meta)
