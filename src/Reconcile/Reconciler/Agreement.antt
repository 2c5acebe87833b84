-- ===== src/Reconcile/Reconciler/Agreement.antt =====
-- What a run of reconciler.ts reports: exactly the accounts in scope whose balances differ.
use xrpl_registrar.Common.{
  ℕ, String, ◌≡◌, refl, sym, ap, ◌∙◌, inl, inr, Bool, true, false, ◌||◌, Option, none, some, List,
  [], ◌∷◌, ◌++◌, arith, if◌then◌else◌, Bool-cases,
}
use xrpl_registrar.Common.Dict.{Dict, lookup, keys}
use xrpl_registrar.Common.Int.{ℤ, eq_ℤ, eq_ℤ→eq}
use xrpl_registrar.Common.Sort.{sort, insert_sorted}
use xrpl_registrar.Common.Text.{eq, eq_iff, eq_refl, lt, one_of}
use xrpl_registrar.Reconcile.Reconciler.{
  Discrepancy, Runs, distinct, balance, restrict, compare_each, compare_balances, record_run,
  run_mpt, is_empty,
}

one_of-append :
    (a : String) (xs ys : List String) → one_of a (xs ++ ys) ≡ (one_of a xs || one_of a ys)
one_of-append a [] ys = refl
one_of-append a (x ∷ xs) ys = ground (arith, one_of-append a xs ys)

one_of-insert_sorted :
    (a x : String) (xs : List String)
    → one_of a (insert_sorted (λ s t. lt s t) x xs) ≡ (eq a x || one_of a xs)
unfolding insert_sorted
one_of-insert_sorted a x [] = refl
one_of-insert_sorted a x (y ∷ ys) = ground (arith, one_of-insert_sorted a x ys)

one_of-sort : (a : String) (xs : List String) → one_of a (sort (λ s t. lt s t) xs) ≡ one_of a xs
unfolding sort
one_of-sort a [] = refl
one_of-sort a (x ∷ xs) =
    ground (arith, one_of-insert_sorted a x (sort (λ s t. lt s t) xs), one_of-sort a xs)

one_of-distinct :
    (a : String) (seen xs : List String)
    → (one_of a seen || one_of a (distinct seen xs)) ≡ (one_of a seen || one_of a xs)
unfolding distinct
one_of-distinct a seen [] = refl
one_of-distinct a seen (x ∷ xs) =
    ground (arith, eq_iff a x, one_of-distinct a seen xs, one_of-distinct a (x ∷ seen) xs)

one_of-keys : (a : String) (m : Dict ℤ) → one_of a (keys m) ≡ false → lookup a m ≡ none
unfolding lookup
one_of-keys a [] h = refl
one_of-keys a ((k, v) ∷ m) h = ground (arith, eq_iff a k, eq_iff k a, one_of-keys a m)

lookup-restrict :
    (a : String) (set : List String) (m : Dict ℤ)
    → lookup a (restrict set m) ≡ (if one_of a set then lookup a m else none)
unfolding lookup restrict
lookup-restrict a set [] = ground arith
lookup-restrict a set ((k, v) ∷ m) = ground (arith, eq_iff k a, lookup-restrict a set m)

-- The report on an account.
unfoldable pub report_on : String → List Discrepancy → Option Discrepancy
report_on a [] = none
report_on a (d ∷ ds) = if eq d.account a then some d else report_on a ds

module _ (print : ℤ → String) where
  -- What a difference of an account's balances is reported as, if there is one.
  abbrev pub difference : Dict ℤ → Dict ℤ → String → Option Discrepancy
  difference d r a =
      if eq_ℤ (balance d a) (balance r a)
      then none
      else some (record {
        account = a;
        derived = print (balance d a);
        reconstructed = print (balance r a);
      })

  report_on-compare_each :
      (a : String) (d r : Dict ℤ) (xs : List String)
      → report_on a (compare_each print d r xs) ≡ (if one_of a xs then difference d r a else none)
  unfolding report_on compare_each
  report_on-compare_each a d r [] = refl
  report_on-compare_each a d r (x ∷ xs) =
      ground (arith, eq_iff x a, eq_iff a x, eq_refl a, report_on-compare_each a d r xs)

  difference-absent :
      (a : String) (d r : Dict ℤ) → lookup a d ≡ none → lookup a r ≡ none → difference d r a ≡ none
  difference-absent a d r h k = ground (arith, h, k)

  one_of-accounts :
      (a : String) (d r : Dict ℤ)
      → one_of a (sort (λ s t. lt s t) (distinct [] (keys d ++ keys r)))
        ≡ (one_of a (keys d) || one_of a (keys r))
  one_of-accounts a d r =
      one_of-sort a _ ∙ one_of-distinct a [] (keys d ++ keys r) ∙ one_of-append a (keys d) (keys r)

  difference-unless :
      (a : String) (d r : Dict ℤ)
      → (if one_of a (keys d) || one_of a (keys r) then difference d r a else none)
        ≡ difference d r a
  difference-unless a d r = elim (Bool-cases (one_of a (keys d) || one_of a (keys r))) [
    | inl e ↦ rw e refl
    | inr e ↦ rw e (
        sym (
          difference-absent a d r (one_of-keys a d (ground (arith, e)))
            (one_of-keys a r (ground (arith, e)))))
  ]

  report_on-compare_balances :
      (a : String) (d r : Dict ℤ) → report_on a (compare_balances print d r) ≡ difference d r a
  unfolding compare_balances
  report_on-compare_balances a d r =
      report_on-compare_each a d r _
      ∙ ap (λ (b : Bool). if b then difference d r a else none) (one_of-accounts a d r)
      ∙ difference-unless a d r

  -- A run reports an account exactly where it is in scope and its two balances differ, an account
  -- without a balance having zero, and reports it with the two balances.
  pub run_mpt-report_on :
      (issuance_id : ℕ) (derived reconstructed : Dict ℤ) (in_scope : List String) (runs : Runs)
      (a : String)
      → report_on a (run_mpt print issuance_id derived reconstructed in_scope runs).1.discrepancies
        ≡ (if one_of a in_scope then difference derived reconstructed a else none)
  unfolding run_mpt record_run
  run_mpt-report_on issuance_id derived reconstructed in_scope runs a =
      report_on-compare_balances a (restrict in_scope derived) (restrict in_scope reconstructed)
      ∙ ground (arith, lookup-restrict a in_scope derived, lookup-restrict a in_scope reconstructed)

  is_empty-report_on :
      (a : String) (ds : List Discrepancy) → is_empty ds ≡ true → report_on a ds ≡ none
  unfolding report_on
  is_empty-report_on a [] h = refl
  is_empty-report_on a (d ∷ ds) h = ground (arith, h)

  difference-none :
      (a : String) (d r : Dict ℤ) → difference d r a ≡ none → balance d a ≡ balance r a
  difference-none a d r h = elim (Bool-cases (eq_ℤ (balance d a) (balance r a))) [
    | inl e ↦ eq_ℤ→eq _ _ e
    | inr e ↦ absurd (ground (arith, h, e))
  ]

  -- Where a run passes, every account in scope has the same derived and reconstructed balance, an
  -- account without a balance having zero.
  run_mpt-passed :
      (issuance_id : ℕ) (derived reconstructed : Dict ℤ) (in_scope : List String) (runs : Runs)
      (a : String)
      → (run_mpt print issuance_id derived reconstructed in_scope runs).1.passed ≡ true
      → one_of a in_scope ≡ true
      → balance derived a ≡ balance reconstructed a
  unfolding run_mpt record_run
  run_mpt-passed issuance_id derived reconstructed in_scope runs a h s =
      difference-none a derived reconstructed (
        ap (λ (b : Bool). if b then difference derived reconstructed a else none) (sym s)
        ∙ sym (run_mpt-report_on issuance_id derived reconstructed in_scope runs a)
        ∙ is_empty-report_on a _ h)
