-- ===== src/Reconcile/MptConservation.antt =====
-- The reconciliation identity for MPTs: on a continuous history the summed deltas of
-- mptDeltas.ts are the balances of the objects that reconstruct.ts keeps.
use xrpl_registrar.Common.{
  String, ◌≡◌, refl, sym, ap, ◌∙◌, subst, inl, inr, Bool, true, false, Option, none, some, List, [],
  ◌∷◌, if◌then◌else◌, Bool-cases,
}
use xrpl_registrar.Common.Dict.{Dict, lookup, lookup-insert_self, lookup-insert_ne}
use xrpl_registrar.Common.Int.{pos, eq_ℤ, ◌+ℤ◌, int_laws, eq_ℤ→eq}
use xrpl_registrar.Common.Text.{eq, eq_iff}
use xrpl_registrar.Json.{Value, get}
use xrpl_registrar.Meta.{Change, created, modified, deleted, affected_nodes}
use xrpl_registrar.Reconcile.MptDeltas.{
  AccountDelta, MptNode, amount, prev_amount, final_amount, mpt_node, node_delta, push_delta,
  deltas_of, mpt_deltas,
}
use xrpl_registrar.State.Reconstruct.{
  MetaEntry, NodeInfo, ObjectState, deletes, extract_node, extract_from, extract_nodes, to_state,
  is_newer, touch, touch_all, latest_from, latest_by_id,
}
use xrpl_registrar.Reconcile.MptHistory.{
  exchange, regroup, +ℤ_zero, +ℤ_comm, mpt_predicate, object_balance, sum_for, total_for,
  touch_node, touch_all-push_some, info_of, extract_node-mpt_node, is_match, prev_amount-FollowsOn,
  NodeContinues, EntryContinues, Continues,
}

module _ (id : String) (token : String → String)
    (distinct : (a b : String) → token a ≡ token b → a ≡ b) where
  touch_skip :
      (e : MetaEntry) (m : Dict ObjectState) (o : Option NodeInfo)
      → is_match id token o ≡ false
      → touch_node (mpt_predicate id) e o m ≡ m
  unfolding touch
  touch_skip e m none h = refl
  touch_skip e m (some n) h = rw h

  final_balance :
      (e : MetaEntry) (n : MptNode) (o : String)
      → object_balance (some (to_state e (info_of n "MPToken" o))) ≡ final_amount n.change n.fields
  unfolding object_balance to_state final_amount
  final_balance e n o = by_change n.change
    where
      by_change :
          (c : Change)
          → (if deletes c then pos 0 else amount (get "MPTAmount" n.fields))
            ≡ final_amount c n.fields
      by_change created = refl
      by_change modified = refl
      by_change deleted = refl

  touch_account :
      (a : String) (e : MetaEntry) (m : Dict ObjectState) (n : MptNode)
      → mpt_predicate id "MPToken" n.fields ≡ true
      → is_newer e (lookup (token n.account) m) ≡ true
      → object_balance
          (lookup (token a) (touch (mpt_predicate id) e (info_of n "MPToken" (token n.account)) m))
        ≡ (if eq n.account a
            then final_amount n.change n.fields
            else object_balance (lookup (token a) m))
  unfolding touch
  touch_account a e m n h new = elim (Bool-cases (eq n.account a)) [
    | inl same ↦
        rw (h, new, same, ← (eq_iff n.account a).0 same, lookup-insert_self)
          (final_balance e n (token n.account))
    | inr other ↦ rw (
      h,
      new,
      other,
      lookup-insert_ne (token n.account) (token a) _ m
          (λ t. cc ((eq_iff n.account a).1 (distinct n.account a t))),
    )
  ]

  sum_for-push_delta :
      (a : String) (n : MptNode) (ds : List AccountDelta)
      → sum_for a (push_delta (some n) ds)
        ≡ (if eq n.account a then node_delta n +ℤ sum_for a ds else sum_for a ds)
  unfolding sum_for push_delta
  sum_for-push_delta a n ds = elim (Bool-cases (eq_ℤ (node_delta n) (pos 0))) [
    | inl zero_delta ↦ rw zero_delta (zero_case zero_delta (eq n.account a))
    | inr changed ↦ rw changed
  ]
    where
      zero_case :
          eq_ℤ (node_delta n) (pos 0) ≡ true
          → (b : Bool) → sum_for a ds ≡ (if b then node_delta n +ℤ sum_for a ds else sum_for a ds)
      zero_case z true =
          rw (eq_ℤ→eq (node_delta n) (pos 0) z, +ℤ_comm (pos 0) (sum_for a ds), +ℤ_zero)
      zero_case z false = refl

  sum_for-node :
      (a : String) (e : MetaEntry) (m : Dict ObjectState) (raw : Value) (ds : List AccountDelta)
      (o : Option MptNode)
      → mpt_node id raw ≡ o
      → NodeContinues id token e m raw o
      → sum_for a (push_delta o ds) +ℤ object_balance (lookup (token a) m)
        ≡ sum_for a ds
          +ℤ object_balance
              (lookup (token a) (touch_node (mpt_predicate id) e (extract_node raw) m))
  unfolding push_delta node_delta
  sum_for-node a e m raw ds none h c = rw (touch_skip e m (extract_node raw) c)
  sum_for-node a e m raw ds (some n) h c =
      let (x, p) = extract_node-mpt_node id (token n.account) raw n h c.0 in
      rw (x, sum_for-push_delta a n ds, touch_account a e m n p c.2)
        (elim (Bool-cases (eq n.account a)) [
          | inl same ↦ rw same (
              exchange (final_amount n.change n.fields) _ (sum_for a ds) _ (
                subst
                  (λ b. prev_amount n.change n.node n.fields ≡ object_balance (lookup (token b) m))
                  ((eq_iff n.account a).0 same)
                  (prev_amount-FollowsOn n.change n.node n.fields _ c.1)))
          | inr other ↦ rw other
        ])

  sum_for-entry :
      (a : String) (e : MetaEntry) (raws : List Value) (m : Dict ObjectState)
      → EntryContinues id token e m raws
      → sum_for a (deltas_of id raws) +ℤ object_balance (lookup (token a) m)
        ≡ object_balance (lookup (token a) (touch_all (mpt_predicate id) e (extract_from raws) m))
  unfolding sum_for deltas_of extract_from touch_all
  sum_for-entry a e [] m c = omega int_laws
  sum_for-entry a e (raw ∷ raws) m c =
      sum_for-node a e m raw (deltas_of id raws) (mpt_node id raw) refl c.0
      ∙ sum_for-entry a e raws (touch_node (mpt_predicate id) e (extract_node raw) m) c.1
      ∙ ap (λ d. object_balance (lookup (token a) d))
          (sym (touch_all-push_some (mpt_predicate id) e (extract_node raw) (extract_from raws) m))

  total_for_from :
      (a : String) (es : List MetaEntry) (m : Dict ObjectState)
      → Continues id token m es
      → total_for id a es +ℤ object_balance (lookup (token a) m)
        ≡ object_balance (lookup (token a) (latest_from (mpt_predicate id) es m))
  unfolding total_for latest_from mpt_deltas extract_nodes
  total_for_from a [] m c = omega int_laws
  total_for_from a (e ∷ es) m c =
      regroup _ _ _
      ∙ ap (λ b. total_for id a es +ℤ b) (sum_for-entry a e (affected_nodes e.meta) m c.0)
      ∙ total_for_from a es _ c.1

  -- Where no two accounts share an object, and on a continuous history, the deltas of an account sum
  -- to the amount of its latest object: the two routes that the reconciler compares agree. A history
  -- is continuous where each MPToken node of the issuance stands for its account's own object and is
  -- newer than what was seen of it; where a created node makes an object that was not there,
  -- PreviousFields of a modified node have the MPTAmount of the object so far (none where it had
  -- none), and a deleted node has it in its FinalFields; and where no other node matches.
  pub total_for-latest :
      (a : String) (es : List MetaEntry)
      → Continues id token [] es
      → total_for id a es ≡ object_balance (lookup (token a) (latest_by_id (mpt_predicate id) es))
  unfolding latest_by_id object_balance lookup
  total_for-latest a es c = sym (+ℤ_zero (total_for id a es)) ∙ total_for_from a es [] c
