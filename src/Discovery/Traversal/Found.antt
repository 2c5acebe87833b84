-- ===== src/Discovery/Traversal/Found.antt =====
-- What the walk returns: that it does, and the accounts in the result.
use xrpl_registrar.Common.{
  ℕ, zero, suc, ◌≤◌, ◌<◌, String, ◌≡◌, refl, sym, ap, ◌∙◌, subst, ◌↔◌, inl, inr, Bool, true, Option,
  none, some, List, [], ◌∷◌, arith, Bool-cases, Option-cases, length, List-cases,
}
use xrpl_registrar.Common.Set.{add}
use xrpl_registrar.Common.Text.{one_of}
use xrpl_registrar.Common.Dict.{lookup}
use xrpl_registrar.Discovery.Earliest.{DiscoveredAccount, traversal as via_traversal, to_accounts}
use xrpl_registrar.Discovery.Earliest.Sightings.{entry_of, entry_of-to_accounts, account_of}
use xrpl_registrar.Discovery.Entries.{AccountTxEntry}
use xrpl_registrar.Discovery.Traversal.{Traversal, expand, walk, start, traversal, finish}
use xrpl_registrar.Discovery.Traversal.Reached.{
  Reaches, origin, step, IsWalk, IsWalk-start, IsWalk-expand, account_queued,
}
use xrpl_registrar.Discovery.Traversal.Scan.{has, is_some}
use xrpl_registrar.Discovery.Traversal.Walk.{
  missing-le, missing-add, work, stays_in, stays_in-links, is_closed, is_closed_at,
  work-visit_entries,
}

module _ (history : String → List AccountTxEntry) (mpt_issuance_id issuer : String) where
  abbrev Holds : Traversal → Type 0
  Holds = IsWalk history mpt_issuance_id issuer

  walk_done :
      (fuel : ℕ) (t : Traversal) → t.frontier ≡ [] → walk history mpt_issuance_id fuel t ≡ some t
  unfolding walk
  walk_done zero t e = rw e refl
  walk_done (suc fuel) t e = rw e refl

  abbrev next : Traversal → String → List String → Traversal
  next t account rest = expand history mpt_issuance_id account (record t { frontier = rest })

  walk_step :
      (fuel : ℕ) (t : Traversal) (account : String) (rest : List String)
      → t.frontier ≡ account ∷ rest
      → walk history mpt_issuance_id (suc fuel) t
        ≡ walk history mpt_issuance_id fuel (next t account rest)
  unfolding walk
  walk_step fuel t account rest e = rw e refl

  walk_stuck :
      (t : Traversal) (account : String) (rest : List String)
      → t.frontier ≡ account ∷ rest
      → walk history mpt_issuance_id zero t ≡ none
  unfolding walk
  walk_stuck t account rest e = rw e refl

  abbrev AtEnd : Traversal → Type 0
  AtEnd u = Holds u × (u.frontier ≡ [])

  IsWalk-walk :
      (fuel : ℕ) (t u : Traversal)
      → walk history mpt_issuance_id fuel t ≡ some u
      → Holds t
      → AtEnd u
  IsWalk-walk zero t u h w = elim (List-cases t.frontier) [
    | inl empty ↦
        let same : t ≡ u = ground (arith, walk_done zero t empty) in subst AtEnd same (w, empty)
    | inr (account, rest, e) ↦ ground (arith, walk_stuck t account rest e)
  ]
  IsWalk-walk (suc fuel) t u h w = elim (List-cases t.frontier) [
    | inl empty ↦
        let same : t ≡ u = ground (arith, walk_done (suc fuel) t empty) in
        subst AtEnd same (w, empty)
    | inr (account, rest, e) ↦
        IsWalk-walk fuel (next t account rest) u (sym (walk_step fuel t account rest e) ∙ h)
          (IsWalk-expand history mpt_issuance_id issuer t account rest e w)
  ]

  -- At the end nothing is left to visit, so every chain stays among the accounts that were queued.
  Reaches-queued :
      (t : Traversal)
      → Holds t
      → t.frontier ≡ []
      → (a : String) → Reaches history mpt_issuance_id issuer a
      → one_of a t.queued ≡ true
  Reaches-queued t h e _ origin = h.origin_queued
  Reaches-queued t h e _ (step a b r l) =
      let q = Reaches-queued t h e a r in
      h.closed a b (ground (arith, h.progress a q, ap (one_of a) e)) l

  Reaches-inside :
      (universe : List String)
      → one_of issuer universe ≡ true
      → is_closed history mpt_issuance_id universe ≡ true
      → (a : String) → Reaches history mpt_issuance_id issuer a
      → one_of a universe ≡ true
  Reaches-inside universe i c _ origin = i
  Reaches-inside universe i c _ (step a b r l) =
      stays_in-links universe mpt_issuance_id (history a) b
        (is_closed_at history mpt_issuance_id universe a c (Reaches-inside universe i c a r)) l

  work-next :
      (universe : List String) (t : Traversal) (account : String) (rest : List String)
      → stays_in universe mpt_issuance_id (history account) ≡ true
      → t.frontier ≡ account ∷ rest
      → work universe (next t account rest) < work universe t
  unfolding expand
  work-next universe t account rest c e = elim (Bool-cases (one_of account t.seen)) [
    | inl old ↦ rw old (omega (arith, ap length e))
    | inr new ↦ rw new (
        omega (
          arith,
          ap length e,
          work-visit_entries universe mpt_issuance_id (history account)
              (record t { frontier = rest; seen = add account t.seen }) c,
        ))
  ]

  module _ (universe : List String) (inside : one_of issuer universe ≡ true)
      (closed : is_closed history mpt_issuance_id universe ≡ true) where
    stays :
        (t : Traversal) (account : String) (rest : List String)
        → t.frontier ≡ account ∷ rest
        → Holds t
        → stays_in universe mpt_issuance_id (history account) ≡ true
    stays t account rest e w = is_closed_at history mpt_issuance_id universe account closed (
        Reaches-inside universe inside closed account
          (w.sound account (account_queued history mpt_issuance_id issuer t account rest e w)))

    walk_ends :
        (fuel : ℕ) (t : Traversal)
        → Holds t
        → work universe t ≤ fuel
        → (u : Traversal) × (walk history mpt_issuance_id fuel t ≡ some u)
    walk_ends zero t w h = elim (List-cases t.frontier) [
      | inl empty ↦ (t, walk_done zero t empty)
      | inr (account, rest, e) ↦ absurd (omega (arith, ap length e))
    ]
    walk_ends (suc fuel) t w h = elim (List-cases t.frontier) [
      | inl empty ↦ (t, walk_done (suc fuel) t empty)
      | inr (account, rest, e) ↦
          let (u, ends) =
            walk_ends fuel (next t account rest)
              (IsWalk-expand history mpt_issuance_id issuer t account rest e w)
              (omega (arith, work-next universe t account rest (stays t account rest e w) e)) in
          (u, walk_step fuel t account rest e ∙ ends)
    ]

    work-start : work universe (start history mpt_issuance_id issuer) ≤ length universe
    unfolding start
    work-start = omega (arith, missing-add universe issuer [] inside refl, missing-le universe [])

    -- Among finitely many accounts, which the related transactions of each of them do not leave,
    -- the walk returns a result after at most as many rounds as there are accounts.
    pub traversal_terminates :
        (accounts : List DiscoveredAccount) × (traversal history mpt_issuance_id
            (length universe)
            issuer
          ≡ some accounts)
    unfolding traversal
    traversal_terminates =
        let (u, ends) =
          walk_ends (length universe) (start history mpt_issuance_id issuer)
            (IsWalk-start history mpt_issuance_id issuer) work-start in
        (to_accounts u.first via_traversal, ap finish ends)

  -- Whether a result has an entry of an address.
  abbrev pub lists : List DiscoveredAccount → String → Bool
  lists accounts a = is_some (entry_of a accounts)

  lists-to_accounts :
      (t : Traversal) (a : String) → lists (to_accounts t.first via_traversal) a ≡ has a t.first
  lists-to_accounts t a =
      ap is_some (entry_of-to_accounts a via_traversal t.first) ∙ kept (lookup a t.first)
    where
      kept : (o : Option (Option ℕ)) → is_some (account_of via_traversal a o) ≡ is_some o
      kept none = refl
      kept (some l) = refl

  listed-Reaches :
      (t : Traversal)
      → AtEnd t
      → (a : String)
      → (lists (to_accounts t.first via_traversal) a ≡ true)
        ↔ Reaches history mpt_issuance_id issuer a
  listed-Reaches t (w, e) a =
      let same = lists-to_accounts t a ∙ w.first a in
      (λ l. w.sound a (sym same ∙ l), λ r. same ∙ Reaches-queued t w e a r)

  -- The accounts in the walk's result are exactly those that a chain of related transactions
  -- connects with the issuer, each in the history of the account before it.
  pub traversal-Reaches :
      (fuel : ℕ) (accounts : List DiscoveredAccount)
      → traversal history mpt_issuance_id fuel issuer ≡ some accounts
      → (a : String) → (lists accounts a ≡ true) ↔ Reaches history mpt_issuance_id issuer a
  unfolding traversal
  traversal-Reaches fuel accounts h a =
      elim (Option-cases
        (walk history mpt_issuance_id fuel (start history mpt_issuance_id issuer))) [
          | inl none_left ↦ ground (arith, ap finish none_left)
          | inr (u, ends) ↦
              let same : to_accounts u.first via_traversal ≡ accounts =
                ground (arith, ap finish ends) in
              subst (λ ds. (lists ds a ≡ true) ↔ Reaches history mpt_issuance_id issuer a) same
                (listed-Reaches u
                  (IsWalk-walk fuel (start history mpt_issuance_id issuer) u ends
                    (IsWalk-start history mpt_issuance_id issuer))
                  a)
        ]
