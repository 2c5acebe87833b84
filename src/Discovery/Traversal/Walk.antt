-- ===== src/Discovery/Traversal/Walk.antt =====
-- The walk ends: among finitely many accounts, every round takes one off the frontier, and every
-- account enters it once.
use xrpl_registrar.Common.{
  ℕ, suc, ◌+◌, ◌≤◌, String, ◌≡◌, refl, sym, subst, inl, inr, Bool, true, false, not, ◌&&◌, ◌||◌,
  Option, List, [], ◌∷◌, arith, if◌then◌else◌, Bool-cases, length, length-append,
}
use xrpl_registrar.Common.Set.{add, one_of-add, one_of_same}
use xrpl_registrar.Common.Text.{eq, eq_iff, one_of}
use xrpl_registrar.Discovery.Entries.{AccountTxEntry, is_mpt_related, mpt_parties}
use xrpl_registrar.Discovery.Traversal.{Traversal, enqueue_party, visit_parties, visit_entries}
use xrpl_registrar.Discovery.Traversal.Scan.{links, noted, entry_step}

-- How many of the accounts are not in a set.
unfoldable pub missing : List String → List String → ℕ
missing [] set = 0
missing (a ∷ rest) set = if one_of a set then missing rest set else suc (missing rest set)

missing-add_le :
    (universe : List String) (p : String) (set : List String)
    → missing universe (add p set) ≤ missing universe set
unfolding missing
missing-add_le [] p set = omega arith
missing-add_le (a ∷ rest) p set = ground (arith, missing-add_le rest p set, one_of-add a p set)

pub missing-add :
    (universe : List String) (p : String) (set : List String)
    → one_of p universe ≡ true
    → one_of p set ≡ false
    → suc (missing universe (add p set)) ≤ missing universe set
unfolding missing
missing-add [] p set h new = ground arith
missing-add (a ∷ rest) p set h new = elim (Bool-cases (eq p a)) [
  | inl same ↦ ground (
    arith,
    missing-add_le rest p set,
    one_of-add a p set,
    eq_iff a p,
    eq_iff p a,
    one_of_same a p set,
  )
  | inr other ↦ ground (arith, missing-add rest p set, one_of-add a p set, eq_iff a p, eq_iff p a)
]

pub missing-le : (universe set : List String) → missing universe set ≤ length universe
unfolding missing
missing-le [] set = omega arith
missing-le (a ∷ rest) set = ground (arith, missing-le rest set)

-- What is left to do: rounds for the frontier, and for the accounts that may still enter it.
abbrev pub work : List String → Traversal → ℕ
work universe t = missing universe t.queued + length t.frontier

work-enqueue_party :
    (universe : List String) (p : String) (t : Traversal)
    → one_of p universe ≡ true
    → work universe (enqueue_party p t) ≤ work universe t
unfolding enqueue_party
work-enqueue_party universe p t h =
    ground (arith, missing-add universe p t.queued h, length-append t.frontier (p ∷ []))

-- `texts.every(test)`
abbrev pub every {ℓ} : {A : Type ℓ} → (A → Bool) → List A → Bool
every test [] = true
every test (x ∷ xs) = test x && every test xs

abbrev inside : List String → String → AccountTxEntry → Bool
inside universe id entry =
    not (is_mpt_related entry id) || every (λ p. one_of p universe) (mpt_parties entry id)

-- The related entries of a history name accounts of the universe only.
unfoldable pub stays_in : List String → String → List AccountTxEntry → Bool
stays_in universe id = every (inside universe id)

work-visit_parties :
    (universe : List String) (l : Option ℕ) (ps : List String) (t : Traversal)
    → every (λ p. one_of p universe) ps ≡ true
    → work universe (visit_parties l ps t) ≤ work universe t
unfolding visit_parties
work-visit_parties universe l [] t h = omega arith
work-visit_parties universe l (p ∷ ps) t h = ground (
  arith,
  work-visit_parties universe l ps (enqueue_party p (noted p l t)),
  work-enqueue_party universe p (noted p l t),
)

&&_parts : (a b : Bool) → (a && b) ≡ true → (a ≡ true) × (b ≡ true)
&&_parts true b h = (refl, h)
&&_parts false b h = (h, absurd (true-ne-false h))
  where
    true-ne-false : false ≡ true → ⊥
    true-ne-false e = cc e

pub every-one_of :
    (universe ps : List String) (a : String)
    → every (λ p. one_of p universe) ps ≡ true
    → one_of a ps ≡ true
    → one_of a universe ≡ true
every-one_of universe [] a h m = ground arith
every-one_of universe (p ∷ ps) a h m =
    ground (arith, every-one_of universe ps a, one_of_same a p universe)

work-entry_step :
    (universe : List String) (id : String) (entry : AccountTxEntry) (t : Traversal)
    → inside universe id entry ≡ true
    → work universe (entry_step id entry t) ≤ work universe t
unfolding entry_step
work-entry_step universe id entry t h = elim (Bool-cases (is_mpt_related entry id)) [
  | inl related ↦
      rw related
        (work-visit_parties universe entry.ledger_index (mpt_parties entry id) t (rw related at h))
  | inr other ↦ rw other (omega arith)
]

pub work-visit_entries :
    (universe : List String) (id : String) (entries : List AccountTxEntry) (t : Traversal)
    → stays_in universe id entries ≡ true
    → work universe (visit_entries id entries t) ≤ work universe t
unfolding visit_entries stays_in entry_step
work-visit_entries universe id [] t h = omega arith
work-visit_entries universe id (entry ∷ rest) t h =
    let (here, later) = &&_parts (inside universe id entry) (stays_in universe id rest) h in
    omega (
      arith,
      work-entry_step universe id entry t here,
      work-visit_entries universe id rest (entry_step id entry t) later,
    )

pub stays_in-links :
    (universe : List String) (id : String) (entries : List AccountTxEntry) (a : String)
    → stays_in universe id entries ≡ true
    → links id entries a ≡ true
    → one_of a universe ≡ true
unfolding stays_in links
stays_in-links universe id [] a h l = ground arith
stays_in-links universe id (entry ∷ rest) a h l =
    let (here, later) = &&_parts (inside universe id entry) (stays_in universe id rest) h in
    ground (
      arith,
      stays_in-links universe id rest a later,
      every-one_of universe (mpt_parties entry id) a,
    )

module _ (history : String → List AccountTxEntry) (mpt_issuance_id : String) where
  -- So does every account of the universe.
  unfoldable pub is_closed : List String → Bool
  unfolding stays_in
  is_closed universe = every (λ a. stays_in universe mpt_issuance_id (history a)) universe

  every_at :
      (universe some_of : List String) (a : String)
      → every (λ b. stays_in universe mpt_issuance_id (history b)) some_of ≡ true
      → one_of a some_of ≡ true
      → stays_in universe mpt_issuance_id (history a) ≡ true
  every_at universe [] a c m = ground arith
  every_at universe (b ∷ bs) a c m = elim (Bool-cases (eq a b)) [
    | inl same ↦
        subst (λ x. stays_in universe mpt_issuance_id (history x) ≡ true)
          (sym ((eq_iff a b).0 same)) (ground arith)
    | inr other ↦ every_at universe bs a (ground arith) (ground arith)
  ]

  pub is_closed_at :
      (universe : List String) (a : String)
      → is_closed universe ≡ true
      → one_of a universe ≡ true
      → stays_in universe mpt_issuance_id (history a) ≡ true
  unfolding is_closed
  is_closed_at universe a c m = every_at universe universe a c m
