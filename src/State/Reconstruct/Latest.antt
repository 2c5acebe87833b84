-- ===== src/State/Reconstruct/Latest.antt =====
-- What `latestObjects` keeps of an object: its newest matching node, or nothing if there is none.
use xrpl_registrar.Common.{
  String, ◌≡◌, refl, subst, inl, inr, Bool, true, false, ◌&&◌, Option, none, some, List, [], ◌∷◌,
  ◌++◌, map, arith, Bool-cases, All, Any, All-append, Any-append_left, Any-append_right,
}
use mathlib.Core.List.{append-nil, append_assoc}
use xrpl_registrar.Common.Dict.{Dict, lookup, lookup-insert}
use xrpl_registrar.Common.Text.{eq, eq_iff}
use xrpl_registrar.State.Reconstruct.{
  MetaEntry, NodeInfo, ObjectState, Predicate, extract_nodes, to_state, is_later, is_newer, touch,
  touch_all, latest_from, latest_by_id,
}

-- A node together with the entry whose metadata holds it.
abbrev pub Touch : Type 0
Touch = MetaEntry × NodeInfo

abbrev in_entry : MetaEntry → List NodeInfo → List Touch
in_entry e = map (λ n. (e, n))

-- Every extracted node, in the order of the two loops.
pub touches : List MetaEntry → List Touch
touches [] = []
touches (e ∷ es) = in_entry e (extract_nodes e.meta) ++ touches es

not_later_self :
    (e : MetaEntry) (n : NodeInfo)
    → is_later e.ledger_index e.transaction_index (to_state e n) ≡ false
unfolding to_state
not_later_self e n = ground arith

later_trans :
    (e' e : MetaEntry) (n : NodeInfo) (s : ObjectState)
    → is_later e.ledger_index e.transaction_index s ≡ true
    → is_later e'.ledger_index e'.transaction_index s ≡ false
    → is_later e'.ledger_index e'.transaction_index (to_state e n) ≡ false
unfolding to_state
later_trans e' e n s h k = ground arith

module _ (p : Predicate) (o : String) where
  -- The node belongs to object `o` and passes the predicate.
  abbrev pub matches : Touch → Bool
  matches (e, n) = p n.entry_type n.fields && eq n.object_id o

  abbrev IsState : ObjectState → Touch → Type 0
  IsState s (e, n) = (matches (e, n) ≡ true) × (s ≡ to_state e n)

  abbrev NotLater : ObjectState → Touch → Type 0
  NotLater s (e, n) = (matches (e, n) && is_later e.ledger_index e.transaction_index s) ≡ false

  abbrev Untouched : Touch → Type 0
  Untouched t = matches t ≡ false

  -- The newest of the matching nodes, or the proof that none matches.
  abbrev pub IsLatest : List Touch → Option ObjectState → Type 0
  IsLatest ts none = All Untouched ts
  IsLatest ts (some s) = Any (IsState s) ts × All (NotLater s) ts

  -- A node that does not match leaves the object's state as it was.
  IsLatest-skip :
      (ts : List Touch) (t : Touch) (r : Option ObjectState)
      → matches t ≡ false
      → IsLatest ts r
      → IsLatest (ts ++ t ∷ []) r
  IsLatest-skip ts t none h k = All-append Untouched ts (t ∷ []) k (h, tt)
  IsLatest-skip ts t (some s) h k = (
    Any-append_left (IsState s) ts (t ∷ []) k.0,
    All-append (NotLater s) ts (t ∷ []) k.1 (rw h, tt),
  )

  NotLater-newer :
      (ts : List Touch) (e : MetaEntry) (n : NodeInfo) (s : ObjectState)
      → is_later e.ledger_index e.transaction_index s ≡ true
      → All (NotLater s) ts
      → All (NotLater (to_state e n)) ts
  unfolding to_state
  NotLater-newer [] e n s h k = tt
  NotLater-newer ((e', n') ∷ ts) e n s h k = (
    elim (Bool-cases (matches (e', n'))) [
      | inl m ↦ rw m (later_trans e' e n s h (rw m at k.0))
      | inr m ↦ rw m
    ],
    NotLater-newer ts e n s h k.1,
  )

  NotLater-fresh : (ts : List Touch) (s : ObjectState) → All Untouched ts → All (NotLater s) ts
  NotLater-fresh [] s k = tt
  NotLater-fresh ((e, n) ∷ ts) s k = (rw k.0, NotLater-fresh ts s k.1)

  NotLater-of :
      (e : MetaEntry) (n : NodeInfo) (s : ObjectState)
      → is_later e.ledger_index e.transaction_index s ≡ false
      → NotLater s (e, n)
  NotLater-of e n s h = elim (Bool-cases (matches (e, n))) [ inl m ↦ rw (m, h) | inr m ↦ rw m ]

  IsLatest-replace :
      (ts : List Touch) (e : MetaEntry) (n : NodeInfo) (r : Option ObjectState)
      → matches (e, n) ≡ true
      → is_newer e r ≡ true
      → IsLatest ts r
      → IsLatest (ts ++ (e, n) ∷ []) (some (to_state e n))
  unfolding is_newer
  IsLatest-replace ts e n none m h k = (
    Any-append_right (IsState (to_state e n)) ts _ (inl (m, refl)),
    All-append (NotLater (to_state e n)) ts _ (NotLater-fresh ts (to_state e n) k)
        (NotLater-of e n (to_state e n) (not_later_self e n), tt),
  )
  IsLatest-replace ts e n (some s) m h k = (
    Any-append_right (IsState (to_state e n)) ts _ (inl (m, refl)),
    All-append (NotLater (to_state e n)) ts _ (NotLater-newer ts e n s h k.1)
        (NotLater-of e n (to_state e n) (not_later_self e n), tt),
  )

  IsLatest-keep :
      (ts : List Touch) (e : MetaEntry) (n : NodeInfo) (r : Option ObjectState)
      → is_newer e r ≡ false
      → IsLatest ts r
      → IsLatest (ts ++ (e, n) ∷ []) r
  unfolding is_newer
  IsLatest-keep ts e n none h k = cc
  IsLatest-keep ts e n (some s) h k = (
    Any-append_left (IsState s) ts _ k.0,
    All-append (NotLater s) ts _ k.1 (NotLater-of e n s h, tt),
  )

  touch-IsLatest :
      (ts : List Touch) (e : MetaEntry) (n : NodeInfo) (m : Dict ObjectState)
      → IsLatest ts (lookup o m)
      → IsLatest (ts ++ (e, n) ∷ []) (lookup o (touch p e n m))
  unfolding touch
  touch-IsLatest ts e n m k = elim (Bool-cases (p n.entry_type n.fields)) [
    | inl hp ↦ elim (Bool-cases (eq n.object_id o)) [
      | inl same ↦
          let id = (eq_iff n.object_id o).0 same in
          elim (Bool-cases (is_newer e (lookup n.object_id m))) [
            | inl new ↦
                rw (hp, new, lookup-insert n.object_id o _ m, same)
                  (IsLatest-replace ts e n (lookup o m) (rw (hp, same))
                    (subst (λ j. is_newer e (lookup j m) ≡ true) id new) k)
            | inr old ↦
                rw (hp, old)
                  (IsLatest-keep ts e n (lookup o m)
                    (subst (λ j. is_newer e (lookup j m) ≡ false) id old) k)
          ]
      | inr other ↦
          let skip = IsLatest-skip ts (e, n) (lookup o m) (rw (hp, other)) k in
          elim (Bool-cases (is_newer e (lookup n.object_id m))) [
            | inl new ↦ rw (hp, new, lookup-insert n.object_id o _ m, other) skip
            | inr old ↦ rw (hp, old) skip
          ]
    ]
    | inr hp ↦ rw hp (IsLatest-skip ts (e, n) (lookup o m) (rw hp) k)
  ]

  touch_all-IsLatest :
      (ts : List Touch) (e : MetaEntry) (ns : List NodeInfo) (m : Dict ObjectState)
      → IsLatest ts (lookup o m)
      → IsLatest (ts ++ in_entry e ns) (lookup o (touch_all p e ns m))
  unfolding touch_all
  touch_all-IsLatest ts e [] m k = rw (append-nil ts) k
  touch_all-IsLatest ts e (n ∷ ns) m k =
      rw (← append_assoc ts ((e, n) ∷ []) (in_entry e ns))
        (touch_all-IsLatest (ts ++ (e, n) ∷ []) e ns (touch p e n m) (touch-IsLatest ts e n m k))

  latest_from-IsLatest :
      (ts : List Touch) (es : List MetaEntry) (m : Dict ObjectState)
      → IsLatest ts (lookup o m)
      → IsLatest (ts ++ touches es) (lookup o (latest_from p es m))
  unfolding latest_from touches
  latest_from-IsLatest ts [] m k = rw (append-nil ts) k
  latest_from-IsLatest ts (e ∷ es) m k =
      rw (← append_assoc ts (in_entry e (extract_nodes e.meta)) (touches es)) (
        latest_from-IsLatest (ts ++ in_entry e (extract_nodes e.meta)) es _
          (touch_all-IsLatest ts e (extract_nodes e.meta) m k))

-- For every object: the recorded state is a matching node of the entries and no matching node of
-- that object is later by (ledger, transaction index); nothing is recorded exactly when no node of
-- the object matches.
pub latest_by_id-IsLatest :
    (p : Predicate) (o : String) (es : List MetaEntry)
    → IsLatest p o (touches es) (lookup o (latest_by_id p es))
unfolding latest_by_id lookup
latest_by_id-IsLatest p o es = latest_from-IsLatest p o [] es [] tt
