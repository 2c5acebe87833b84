-- ===== src/Api/LedgerTime/Cost.antt =====
-- What the search of ledgerTime.ts costs, whatever upstream answers.
use xrpl_registrar.Common.{
  ℕ, zero, suc, ◌+◌, ◌-◌, ◌^◌, ◌≤◌, ◌<◌, ◌≡◌, refl, ◌⊎◌, inl, inr, Bool, true, false, Option, none,
  some, arith, ltb, Bool-cases,
}
use native.Mathlib.Nat.{pow-suc}
use xrpl_registrar.Api.LedgerTime.{Ledgers, middle, at_or_before, search, resolve}

le_cases : (o : Option Bool) → (o ≡ none) ⊎ (o ≡ some true) ⊎ (o ≡ some false)
le_cases none = inl refl
le_cases (some true) = inr (inl refl)
le_cases (some false) = inr (inr refl)

-- Either half of a range of fewer than 2^(k+1) ledgers has fewer than 2^k.
halves :
    (k lo past : ℕ)
    → lo < past
    → past - lo < 2 ^ suc k
    → (middle lo past - lo < 2 ^ k) × (past - (middle lo past + 1) < 2 ^ k)
halves k lo past l h = let h' = rw (pow-suc 2 k) at h in (omega arith, omega arith)

module _ (upstream : ℕ → Option ℕ) (iso : ℕ) where
  -- One round goes on with the older or the newer half, or ends.
  search_round :
      (fuel lo past : ℕ) (answer : Option ℕ) (ts : Ledgers)
      → let s = search upstream iso (suc fuel) lo past answer ts in
        let mid = middle lo past in
        let ts' = (at_or_before upstream iso mid ts).ledgers in
        ((past ≤ lo) × (s.probes ≡ 0))
        ⊎ ((lo < past) × (s.probes ≡ (search upstream iso fuel lo mid answer ts').probes + 1))
        ⊎ ((lo < past)
            × (s.probes ≡ (search upstream iso fuel (mid + 1) past (some mid) ts').probes + 1))
  unfolding search
  search_round fuel lo past answer ts = elim (Bool-cases (ltb lo past)) [
    | inr done ↦ inl (ground arith, rw done)
    | inl more ↦ elim (le_cases (at_or_before upstream iso (middle lo past) ts).le) [
      | inl unknown ↦ inr (inl (ground arith, rw (more, unknown)))
      | inr (inl le) ↦ inr (inr (ground arith, rw (more, le)))
      | inr (inr gt) ↦ inr (inl (ground arith, rw (more, gt)))
    ]
  ]

  search_probes :
      (k fuel lo past : ℕ) (answer : Option ℕ) (ts : Ledgers)
      → past - lo < 2 ^ k
      → (search upstream iso fuel lo past answer ts).probes ≤ k
  search_probes k zero lo past answer ts h = unfold search in omega arith
  search_probes zero (suc fuel) lo past answer ts h = elim (search_round fuel lo past answer ts) [
    | inl (_, e) ↦ omega (arith, e)
    | inr (inl (l, _)) ↦ absurd (omega (arith, l))
    | inr (inr (l, _)) ↦ absurd (omega (arith, l))
  ]
  search_probes (suc k) (suc fuel) lo past answer ts h =
      elim (search_round fuel lo past answer ts) [
        | inl (_, e) ↦ omega (arith, e)
        | inr (inl (l, e)) ↦
            omega
              (arith, e, search_probes k fuel lo (middle lo past) answer _ (halves k lo past l h).0)
        | inr (inr (l, e)) ↦
            omega (
              arith,
              e,
              search_probes k fuel (middle lo past + 1) past _ _ (halves k lo past l h).1,
            )
      ]

  -- Between bounds with fewer than 2^k ledgers no search makes more than k probes, and so at most
  -- k requests, whatever is in the table and whatever upstream answers.
  pub resolve_probes :
      (k lo hi : ℕ) (ts : Ledgers)
      → hi + 1 - lo < 2 ^ k
      → (resolve upstream iso (some (lo, hi)) ts).probes ≤ k
  unfolding resolve
  resolve_probes k lo hi ts h = search_probes k (hi + 1 - lo) lo (hi + 1) none ts h
