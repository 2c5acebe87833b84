-- ===== src/Reconcile/MptHistory.antt =====
-- A continuous history of an MPT issuance: what mptDeltas.ts reports of each node is what
-- reconstruct.ts has of the object, and the arithmetic of the two.
use xrpl_registrar.Common.{
  String, ◌≡◌, refl, inl, inr, Bool, true, false, ◌&&◌, Option, none, some, List, [], ◌∷◌, arith,
  if◌then◌else◌, Bool-cases, Option-cases,
}
use xrpl_registrar.Common.Dict.{Dict, lookup}
use xrpl_registrar.Common.Int.{ℤ, pos, ◌+ℤ◌, ◌-ℤ◌, int_laws}
use xrpl_registrar.Common.Text.{eq, eq_iff}
use xrpl_registrar.Json.{Value, Record, and_then, get, get_record, get_string, is_text, truthy}
use xrpl_registrar.Meta.{Change, created, modified, deleted, Node, affected_node, affected_nodes}
use xrpl_registrar.Reconcile.MptDeltas.{
  AccountDelta, MptNode, amount, prev_amount, mpt_node, mpt_deltas,
}
use xrpl_registrar.State.Reconstruct.{
  MetaEntry, NodeInfo, ObjectState, Predicate, deletes, extract_node, extract_nodes, is_newer,
  touch, touch_all, push_some,
}

pub exchange : (f p s b : ℤ) → p ≡ b → f -ℤ p +ℤ s +ℤ b ≡ s +ℤ f
exchange f p s b h = rw h (omega int_laws)

pub regroup : (s t b : ℤ) → s +ℤ t +ℤ b ≡ t +ℤ (s +ℤ b)
regroup s t b = omega int_laws

pub +ℤ_zero : (a : ℤ) → a +ℤ pos 0 ≡ a
+ℤ_zero a = omega int_laws

pub +ℤ_comm : (a b : ℤ) → a +ℤ b ≡ b +ℤ a
+ℤ_comm a b = omega int_laws

-- The predicate that `toMptHolders` gives to `latestObjects`.
unfoldable pub mpt_predicate : String → Predicate
mpt_predicate id type fields =
    eq type "MPToken" && is_text (get_string "MPTokenIssuanceID" fields) id

-- What an object's state contributes: nothing once it is deleted.
unfoldable pub object_balance : Option ObjectState → ℤ
object_balance none = pos 0
object_balance (some s) = if s.is_deleted then pos 0 else amount (get "MPTAmount" s.fields)

unfoldable pub sum_for : String → List AccountDelta → ℤ
sum_for a [] = pos 0
sum_for a (d ∷ ds) = if eq d.account a then d.delta +ℤ sum_for a ds else sum_for a ds

-- All deltas of an account over a history.
unfoldable pub total_for : String → String → List MetaEntry → ℤ
total_for id a [] = pos 0
total_for id a (e ∷ es) = sum_for a (mpt_deltas e.meta id) +ℤ total_for id a es

abbrev pub touch_node :
    Predicate → MetaEntry → Option NodeInfo → Dict ObjectState → Dict ObjectState
touch_node p e none m = m
touch_node p e (some n) m = touch p e n m

pub touch_all-push_some :
    (p : Predicate) (e : MetaEntry) (o : Option NodeInfo) (ns : List NodeInfo)
    (m : Dict ObjectState)
    → touch_all p e (push_some o ns) m ≡ touch_all p e ns (touch_node p e o m)
unfolding touch_all
touch_all-push_some p e none ns m = refl
touch_all-push_some p e (some n) ns m = refl

mptoken_nonempty : eq "MPToken" "" ≡ false
unfolding eq
mptoken_nonempty = refl

abbrev pub info_of : MptNode → String → String → NodeInfo
info_of n type object_id = record {
  entry_type = type;
  object_id = object_id;
  fields = n.fields;
  is_deleted = deletes n.change;
}

abbrev node_type : Node → Option String
node_type n = get_string "LedgerEntryType" n.node

truthy_mptoken : (t : Option String) → is_text t "MPToken" ≡ true → truthy t ≡ some "MPToken"
truthy_mptoken none h = cc
truthy_mptoken (some t) h = let e = (eq_iff t "MPToken").0 h in rw (e, mptoken_nonempty)

-- Both routes read the same nodes.
pub extract_node-mpt_node :
    (id o : String) (raw : Value) (n : MptNode)
    → mpt_node id raw ≡ some n
    → truthy (get_string "LedgerIndex" n.node) ≡ some o
    → (extract_node raw ≡ some (info_of n "MPToken" o))
      × (mpt_predicate id "MPToken" n.fields ≡ true)
unfolding mpt_node extract_node mpt_predicate
extract_node-mpt_node id o raw n h k = elim (Option-cases (affected_node raw)) [
  | inl e ↦ absurd (ground (arith, e))
  | inr (an, e) ↦ elim (Bool-cases (is_text (get_string "LedgerEntryType" an.node) "MPToken")) [
    | inl t ↦ ground (
      arith,
      e,
      t,
      truthy_mptoken (get_string "LedgerEntryType" an.node) t,
      eq_iff "MPToken" "MPToken",
    )
    | inr t ↦ absurd (ground (arith, e, t))
  ]
]

-- The object is not there: it was never seen, or it is deleted.
abbrev pub IsGone : Option ObjectState → Type 0
IsGone none = Unit
IsGone (some s) = s.is_deleted ≡ true

-- The object is there, and this is its MPTAmount field, where zero is left out.
abbrev pub IsHolding : Option ObjectState → Option Value → Type 0
IsHolding none v = ⊥
IsHolding (some s) v = (s.is_deleted ≡ false) × (get "MPTAmount" s.fields ≡ v)

-- What the ledger's metadata says of an object before the transaction: a created node makes one that
-- was not there, the PreviousFields of a modified node have the MPTAmount that it had, and the
-- FinalFields of a deleted node are those that it had.
abbrev pub FollowsOn : Change → Record → Record → Option ObjectState → Type 0
FollowsOn created node fields o = IsGone o
FollowsOn modified node fields o =
    IsHolding o (and_then (get_record "PreviousFields" node) (get "MPTAmount"))
FollowsOn deleted node fields o = IsHolding o (get "MPTAmount" fields)

object_balance-IsHolding :
    (o : Option ObjectState) (v : Option Value) → IsHolding o v → amount v ≡ object_balance o
unfolding object_balance
object_balance-IsHolding none v h = absurd h
object_balance-IsHolding (some s) v (live, held) = rw (live, held)

-- What the code reads as the previous amount is then the balance of the reconstructed object.
pub prev_amount-FollowsOn :
    (c : Change) (node fields : Record) (o : Option ObjectState)
    → FollowsOn c node fields o
    → prev_amount c node fields ≡ object_balance o
unfolding prev_amount object_balance
prev_amount-FollowsOn created node fields none h = refl
prev_amount-FollowsOn created node fields (some s) h = rw h
prev_amount-FollowsOn modified node fields o h = object_balance-IsHolding o _ h
prev_amount-FollowsOn deleted node fields o h = object_balance-IsHolding o _ h

module _ (id : String) (token : String → String) where
  -- No MPToken of the issuance is without an account.
  abbrev pub is_match : Option NodeInfo → Bool
  is_match none = false
  is_match (some n) = mpt_predicate id n.entry_type n.fields

  -- A node continues the history if it stands for the account's own object, follows on what is known
  -- of it, and is newer than what was seen of it.
  abbrev pub NodeContinues : MetaEntry → Dict ObjectState → Value → Option MptNode → Type 0
  NodeContinues e m raw none = is_match (extract_node raw) ≡ false
  NodeContinues e m raw (some n) =
      (truthy (get_string "LedgerIndex" n.node) ≡ some (token n.account))
      × FollowsOn n.change n.node n.fields (lookup (token n.account) m)
      × (is_newer e (lookup (token n.account) m) ≡ true)

  abbrev pub EntryContinues : MetaEntry → Dict ObjectState → List Value → Type 0
  EntryContinues e m [] = Unit
  EntryContinues e m (raw ∷ raws) =
      NodeContinues e m raw (mpt_node id raw)
      × EntryContinues e (touch_node (mpt_predicate id) e (extract_node raw) m) raws

  -- Every entry continues what the ones before it left.
  abbrev pub Continues : Dict ObjectState → List MetaEntry → Type 0
  Continues m [] = Unit
  Continues m (e ∷ es) =
      EntryContinues e m (affected_nodes e.meta)
      × Continues (touch_all (mpt_predicate id) e (extract_nodes e.meta) m) es
