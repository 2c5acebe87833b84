-- ===== src/Common/Sort.antt =====
-- `[...xs].sort((a, b) => …)` with a comparator that tells earlier, later and same: a stable sort,
-- here by insertion.
use mathlib.Core.Path.{◌≡◌, refl}
use mathlib.Core.Bool.{Bool, true, false, ◌&&◌}
use mathlib.Core.Option.{Option, none, some}
use mathlib.Core.List.{List, [], ◌∷◌}
use native.Mathlib.Omega.{arith}
use xrpl_registrar.Common.Tests.{if◌then◌else◌}

module _ {ℓ} {A : Type ℓ} where
  -- The first element that passes the test.
  unfoldable pub find : (A → Bool) → List A → Option A
  find p [] = none
  find p (x ∷ xs) = if p x then some x else find p xs

  unfoldable pub insert_sorted : (A → A → Bool) → A → List A → List A
  insert_sorted less x [] = x ∷ []
  insert_sorted less x (y ∷ ys) = if less y x then y ∷ insert_sorted less x ys else x ∷ y ∷ ys

  unfoldable pub sort : (A → A → Bool) → List A → List A
  sort less [] = []
  sort less (x ∷ xs) = insert_sorted less x (sort less xs)

  module _ (less : A → A → Bool) (p : A → Bool)
      (apart : (y x : A) → less y x ≡ true → (p x && p y) ≡ false) where
    find-insert_sorted :
        (x : A) (xs : List A)
        → find p (insert_sorted less x xs) ≡ (if p x then some x else find p xs)
    unfolding find insert_sorted
    find-insert_sorted x [] = refl
    find-insert_sorted x (y ∷ ys) = ground (arith, apart y x, find-insert_sorted x ys)

    -- A stable sort does not change which element is found first, where those that pass the test
    -- are all the same to the comparator.
    pub find-sort : (xs : List A) → find p (sort less xs) ≡ find p xs
    unfolding find sort
    find-sort [] = refl
    find-sort (x ∷ xs) = ground (arith, find-insert_sorted x (sort less xs), find-sort xs)
