-- ===== src/Discovery/Traversal/Scan.antt =====
-- What one account's history adds to the walk.
use xrpl_registrar.Common.{
  ℕ, String, ◌≡◌, refl, ap, ◌∙◌, subst, inl, inr, Bool, true, false, not, ◌&&◌, ◌||◌, Option, none,
  some, List, [], ◌∷◌, ◌++◌, arith, if◌then◌else◌, Bool-cases,
}
use xrpl_registrar.Common.Dict.{Dict, lookup}
use xrpl_registrar.Common.Set.{add, one_of-add, one_of-append, one_of_same}
use xrpl_registrar.Common.Text.{eq, eq_iff, one_of}
use xrpl_registrar.Discovery.Earliest.{record_earliest}
use xrpl_registrar.Discovery.Earliest.Sightings.{sighted, lookup-record_earliest}
use xrpl_registrar.Discovery.Entries.{AccountTxEntry, is_mpt_related, mpt_parties}
use xrpl_registrar.Discovery.Traversal.{Traversal, enqueue_party, visit_parties, visit_entries}

abbrev pub is_some {ℓ} : {A : Type ℓ} → Option A → Bool
is_some none = false
is_some (some a) = true

-- `map.has(address)`
abbrev pub has : String → Dict (Option ℕ) → Bool
has a m = is_some (lookup a m)

abbrev pub noted : String → Option ℕ → Traversal → Traversal
noted party l t = record t { first = record_earliest party l t.first }

abbrev pub names_party : String → AccountTxEntry → String → Bool
names_party id entry a = is_mpt_related entry id && one_of a (mpt_parties entry id)

-- Some entry of a history is related to the issuance and names the account.
unfoldable pub links : String → List AccountTxEntry → String → Bool
links id [] a = false
links id (entry ∷ rest) a = names_party id entry a || links id rest a

is_some-sighted : (known : Option (Option ℕ)) (l : Option ℕ) → is_some (sighted known l) ≡ true
is_some-sighted none l = refl
is_some-sighted (some k) l = refl

pub has-record_earliest :
    (a party : String) (l : Option ℕ) (m : Dict (Option ℕ))
    → has a (record_earliest party l m) ≡ (has a m || eq a party)
has-record_earliest a party l m =
    ap is_some (lookup-record_earliest a party l m)
    ∙ ground (arith, is_some-sighted (lookup a m) l, eq_iff a party, eq_iff party a)

-- What is seen was queued before.
abbrev pub SeenIsQueued : Traversal → Type 0
SeenIsQueued t = (a : String) → one_of a t.seen ≡ true → one_of a t.queued ≡ true

-- `u` is `t` after the accounts that pass `found` were visited.
pub record Visited (found : String → Bool) (t u : Traversal) : Type 0 where
  pub seen : u.seen ≡ t.seen
  pub queued : (a : String) → one_of a u.queued ≡ (one_of a t.queued || found a)
  pub frontier :
      (a : String)
      → one_of a u.frontier ≡ (one_of a t.frontier || (found a && not (one_of a t.queued)))
  pub first : (a : String) → has a u.first ≡ (has a t.first || found a)

Visited-SeenIsQueued :
    (found : String → Bool) (t u : Traversal) → Visited found t u → SeenIsQueued t → SeenIsQueued u
Visited-SeenIsQueued found t u v h a s =
    rw (v.queued a) (rw (h a (subst (λ ss. one_of a ss ≡ true) v.seen s)) refl)

Visited-none : (t : Traversal) → Visited (λ _. false) t t
Visited-none t = record {
  seen = refl;
  queued = λ a. ground arith;
  frontier = λ a. ground arith;
  first = λ a. ground arith;
}

Visited-same :
    (b c : String → Bool) (t u : Traversal)
    → ((a : String) → b a ≡ c a)
    → Visited b t u
    → Visited c t u
Visited-same b c t u e h = record {
  seen = h.seen;
  queued = λ a. ground (arith, h.queued a, e a);
  frontier = λ a. ground (arith, h.frontier a, e a);
  first = λ a. ground (arith, h.first a, e a);
}

Visited-compose :
    (b c : String → Bool) (t u v : Traversal)
    → Visited b t u
    → Visited c u v
    → Visited (λ a. b a || c a) t v
Visited-compose b c t u v h k = record {
  seen = k.seen ∙ h.seen;
  queued = λ a. ground (arith, h.queued a, k.queued a);
  frontier = λ a. ground (arith, h.frontier a, k.frontier a, h.queued a);
  first = λ a. ground (arith, h.first a, k.first a);
}

unseen :
    (party : String) (t : Traversal)
    → SeenIsQueued t
    → one_of party t.queued ≡ false
    → one_of party t.seen ≡ false
unseen party t h new = ground (arith, h party)

enqueue_party_old :
    (party : String) (t : Traversal) → one_of party t.queued ≡ true → enqueue_party party t ≡ t
unfolding enqueue_party
enqueue_party_old party t old = elim (Bool-cases (one_of party t.seen)) [
  | inl s ↦ rw s refl
  | inr s ↦ rw (s, old) refl
]

abbrev queue_party : String → Traversal → Traversal
queue_party party t = record t { queued = add party t.queued; frontier = t.frontier ++ party ∷ [] }

enqueue_party_new :
    (party : String) (t : Traversal)
    → SeenIsQueued t
    → one_of party t.queued ≡ false
    → enqueue_party party t ≡ queue_party party t
unfolding enqueue_party
enqueue_party_new party t h new = rw (new, unseen party t h new) refl

Visited-enqueue_party :
    (party : String) (l : Option ℕ) (t : Traversal)
    → SeenIsQueued t
    → Visited (λ a. eq a party) t (enqueue_party party (noted party l t))
Visited-enqueue_party party l t h = elim (Bool-cases (one_of party t.queued)) [
  | inl old ↦ rw (enqueue_party_old party (noted party l t) old) (record {
    seen = refl;
    queued = λ a. ground (arith, one_of_same a party t.queued);
    frontier = λ a. ground (arith, one_of_same a party t.queued);
    first = λ a. has-record_earliest a party l t.first;
  })
  | inr new ↦ rw (enqueue_party_new party (noted party l t) h new) (record {
    seen = refl;
    queued = λ a. ground (arith, one_of-add a party t.queued);
    frontier =
        λ a. ground (arith, one_of-append a t.frontier (party ∷ []), one_of_same a party t.queued);
    first = λ a. has-record_earliest a party l t.first;
  })
]

Visited-visit_parties :
    (l : Option ℕ) (parties : List String) (t : Traversal)
    → SeenIsQueued t
    → Visited (λ a. one_of a parties) t (visit_parties l parties t)
unfolding visit_parties
Visited-visit_parties l [] t h = Visited-none t
Visited-visit_parties l (party ∷ rest) t h =
    let u = enqueue_party party (noted party l t) in
    let head = Visited-enqueue_party party l t h in
    Visited-compose (λ a. eq a party) (λ a. one_of a rest) t u (visit_parties l rest u) head
      (Visited-visit_parties l rest u (Visited-SeenIsQueued (λ a. eq a party) t u head h))

unfoldable pub entry_step : String → AccountTxEntry → Traversal → Traversal
entry_step id entry t =
    if is_mpt_related entry id then visit_parties entry.ledger_index (mpt_parties entry id) t else t

Visited-entry_step :
    (id : String) (entry : AccountTxEntry) (t : Traversal)
    → SeenIsQueued t
    → Visited (names_party id entry) t (entry_step id entry t)
unfolding entry_step
Visited-entry_step id entry t h = elim (Bool-cases (is_mpt_related entry id)) [
  | inl related ↦ rw related (
      Visited-same (λ a. one_of a (mpt_parties entry id)) (names_party id entry) t
        (visit_parties entry.ledger_index (mpt_parties entry id) t) (λ a. rw related refl)
        (Visited-visit_parties entry.ledger_index (mpt_parties entry id) t h))
  | inr other ↦
      rw other
        (Visited-same (λ _. false) (names_party id entry) t t (λ a. rw other refl) (Visited-none t))
]

pub Visited-visit_entries :
    (id : String) (entries : List AccountTxEntry) (t : Traversal)
    → SeenIsQueued t
    → Visited (links id entries) t (visit_entries id entries t)
unfolding visit_entries links entry_step
Visited-visit_entries id [] t h = Visited-none t
Visited-visit_entries id (entry ∷ rest) t h =
    let found = names_party id entry in
    let u = entry_step id entry t in
    let head = Visited-entry_step id entry t h in
    Visited-compose found (links id rest) t u (visit_entries id rest u) head
      (Visited-visit_entries id rest u (Visited-SeenIsQueued found t u head h))
