-- ===== src/Common/Strict.antt =====
-- Sorting by a strict order in which any two different elements compare: the result is strictly
-- ascending, and filtering commutes with it.
use mathlib.Core.Path.{◌≡◌, refl, ap, ◌∙◌}
use mathlib.Core.Logic.{inl, inr}
use mathlib.Core.Bool.{Bool, true, false, ◌||◌}
use mathlib.Core.List.{List, [], ◌∷◌, ◌++◌}
use native.Mathlib.Omega.{arith}
use xrpl_registrar.Common.Tests.{if◌then◌else◌, Bool-cases}
use xrpl_registrar.Common.Lists.{All, keep_if}
use xrpl_registrar.Common.Sort.{insert_sorted, sort}

module _ {ℓ} {A : Type ℓ} where
  pub All-keep_if : (P : A → Type 0) (p : A → Bool) (xs : List A) → All P xs → All P (keep_if p xs)
  All-keep_if P p [] h = tt
  All-keep_if P p (x ∷ xs) (h, hs) = elim (Bool-cases (p x)) [
    | inl e ↦ rw e (h, All-keep_if P p xs hs)
    | inr e ↦ rw e (All-keep_if P p xs hs)
  ]

  pub All-middle :
      (P : A → Type 0) (before : List A) (x : A) (after : List A)
      → All P (before ++ x ∷ after)
      → P x
  All-middle P [] x after (h, hs) = h
  All-middle P (y ∷ before) x after (h, hs) = All-middle P before x after hs

  pub keep_if-append :
      (p : A → Bool) (xs ys : List A) → keep_if p (xs ++ ys) ≡ keep_if p xs ++ keep_if p ys
  keep_if-append p [] ys = refl
  keep_if-append p (x ∷ xs) ys = ground (arith, keep_if-append p xs ys)

  pub keep_if-All : (p : A → Bool) (xs : List A) → All (λ x. p x ≡ true) xs → keep_if p xs ≡ xs
  keep_if-All p [] h = refl
  keep_if-All p (x ∷ xs) (h, hs) = rw (h, keep_if-All p xs hs) refl

  pub keep_if_no : (p : A → Bool) (xs : List A) → All (λ x. p x ≡ false) xs → keep_if p xs ≡ []
  keep_if_no p [] h = refl
  keep_if_no p (x ∷ xs) (h, hs) = rw (h, keep_if_no p xs hs) refl

  module _ (less : A → A → Bool) where
    -- Each element comes before all later ones.
    abbrev pub Strict : List A → Type 0
    Strict [] = Unit
    Strict (x ∷ xs) = All (λ y. less x y ≡ true) xs × Strict xs

    -- Any two elements compare.
    abbrev pub Distinct : List A → Type 0
    Distinct [] = Unit
    Distinct (x ∷ xs) = All (λ y. (less x y || less y x) ≡ true) xs × Distinct xs

    All-insert_sorted :
        (P : A → Type 0) (x : A) (ys : List A) → P x → All P ys → All P (insert_sorted less x ys)
    unfolding insert_sorted
    All-insert_sorted P x [] h hs = (h, tt)
    All-insert_sorted P x (y ∷ ys) h (k, ks) = elim (Bool-cases (less y x)) [
      | inl e ↦ rw e (k, All-insert_sorted P x ys h ks)
      | inr e ↦ rw e (h, (k, ks))
    ]

    pub All-sort : (P : A → Type 0) (xs : List A) → All P xs → All P (sort less xs)
    unfolding sort
    All-sort P [] h = tt
    All-sort P (x ∷ xs) (h, hs) = All-insert_sorted P x (sort less xs) h (All-sort P xs hs)

    module _ (trans : (a b c : A) → less a b ≡ true → less b c ≡ true → less a c ≡ true) where
      All-before :
          (x y : A) (ys : List A)
          → less x y ≡ true
          → All (λ z. less y z ≡ true) ys
          → All (λ z. less x z ≡ true) ys
      All-before x y [] h ks = tt
      All-before x y (z ∷ ys) h (k, ks) = (trans x y z h k, All-before x y ys h ks)

      insert_sorted-Strict :
          (x : A) (ys : List A)
          → All (λ y. (less x y || less y x) ≡ true) ys
          → Strict ys
          → Strict (insert_sorted less x ys)
      unfolding insert_sorted
      insert_sorted-Strict x [] d s = (tt, tt)
      insert_sorted-Strict x (y ∷ ys) (d, ds) (s, ss) = elim (Bool-cases (less y x)) [
        | inl e ↦
            rw e
              (All-insert_sorted (λ z. less y z ≡ true) x ys e s, insert_sorted-Strict x ys ds ss)
        | inr e ↦
            let first : less x y ≡ true = ground (arith) in
            rw e ((first, All-before x y ys first s), (s, ss))
      ]

      pub sort-Strict : (xs : List A) → Distinct xs → Strict (sort less xs)
      unfolding sort
      sort-Strict [] d = tt
      sort-Strict (x ∷ xs) (d, ds) =
          insert_sorted-Strict x (sort less xs) (All-sort (λ y. (less x y || less y x) ≡ true) xs d)
            (sort-Strict xs ds)

      module _ (asymm : (a b : A) → less a b ≡ true → less b a ≡ false) where
        insert_sorted_front :
            (x : A) (zs : List A)
            → All (λ z. less z x ≡ false) zs
            → insert_sorted less x zs ≡ x ∷ zs
        unfolding insert_sorted
        insert_sorted_front x [] h = refl
        insert_sorted_front x (z ∷ zs) (h, hs) = rw h refl

        All-later :
            (x y : A) (ys : List A)
            → less x y ≡ true
            → All (λ z. less y z ≡ true) ys
            → All (λ z. less z x ≡ false) ys
        All-later x y [] h ks = tt
        All-later x y (z ∷ ys) h (k, ks) = (asymm x z (trans x y z h k), All-later x y ys h ks)

        pass_over :
            (p : A → Bool) (x y : A) (ys : List A)
            → less y x ≡ true
            → keep_if p (insert_sorted less x ys)
              ≡ (if p x then insert_sorted less x (keep_if p ys) else keep_if p ys)
            → (if p y
                then y ∷ keep_if p (insert_sorted less x ys)
                else keep_if p (insert_sorted less x ys))
              ≡ (if p x
                  then insert_sorted less x (if p y then y ∷ keep_if p ys else keep_if p ys)
                  else if p y
                  then y ∷ keep_if p ys
                  else keep_if p ys)
        unfolding insert_sorted
        pass_over p x y ys e ih = elim (Bool-cases (p y)) [
          | inl k ↦ rw (k, e, ih) (inside (p x))
          | inr k ↦ rw k ih
        ]
          where
            inside :
                (b : Bool)
                → y ∷ (if b then insert_sorted less x (keep_if p ys) else keep_if p ys)
                  ≡ (if b then y ∷ insert_sorted less x (keep_if p ys) else y ∷ keep_if p ys)
            inside true = refl
            inside false = refl

        keep_if-insert_sorted :
            (p : A → Bool) (x : A) (ys : List A)
            → All (λ y. (less x y || less y x) ≡ true) ys
            → Strict ys
            → keep_if p (insert_sorted less x ys)
              ≡ (if p x then insert_sorted less x (keep_if p ys) else keep_if p ys)
        unfolding insert_sorted
        keep_if-insert_sorted p x [] d s = refl
        keep_if-insert_sorted p x (y ∷ ys) (d, ds) (s, ss) = elim (Bool-cases (less y x)) [
          | inl e ↦ rw e (pass_over p x y ys e (keep_if-insert_sorted p x ys ds ss))
          | inr e ↦
              let first : less x y ≡ true = ground arith in
              let after =
                All-keep_if (λ z. less z x ≡ false) p (y ∷ ys) (e, All-later x y ys first s) in
              rw (e, insert_sorted_front x (keep_if p (y ∷ ys)) after) refl
        ]

        pub keep_if-sort :
            (p : A → Bool) (xs : List A)
            → Distinct xs
            → keep_if p (sort less xs) ≡ sort less (keep_if p xs)
        unfolding sort
        keep_if-sort p [] d = refl
        keep_if-sort p (x ∷ xs) (d, ds) =
            keep_if-insert_sorted p x (sort less xs)
              (All-sort (λ y. (less x y || less y x) ≡ true) xs d) (sort-Strict xs ds)
            ∙ ap (λ zs. if p x then insert_sorted less x zs else zs) (keep_if-sort p xs ds)
            ∙ chosen (p x)
          where
            chosen :
                (b : Bool)
                → (if b
                    then insert_sorted less x (sort less (keep_if p xs))
                    else sort less (keep_if p xs))
                  ≡ sort less (if b then x ∷ keep_if p xs else keep_if p xs)
            chosen true = refl
            chosen false = refl

        irrefl : (a : A) → less a a ≡ false
        irrefl a = ground (arith, asymm a a)

        -- What comes after an element of a strictly ascending list is the rest of it.
        pub keep_if_after :
            (before : List A) (x : A) (after : List A)
            → Strict (before ++ x ∷ after)
            → keep_if (λ y. less x y) (before ++ x ∷ after) ≡ after
        keep_if_after [] x after (s, ss) = rw (irrefl x, keep_if-All (λ y. less x y) after s) refl
        keep_if_after (y ∷ before) x after (s, ss) =
            rw (asymm y x (All-middle (λ z. less y z ≡ true) before x after s))
              (keep_if_after before x after ss)
