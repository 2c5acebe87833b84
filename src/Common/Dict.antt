-- ===== src/Common/Dict.antt =====
-- A JavaScript `Map` keyed by strings, and a plain object's properties: pairs in insertion order.
use Prim.Native.String.{String}
use mathlib.Core.Path.{◌≡◌, refl}
use mathlib.Core.Logic.{inl, inr, ◌≢◌}
use mathlib.Core.Option.{Option, none, some}
use mathlib.Core.List.{List, [], ◌∷◌, map}
use native.Mathlib.Omega.{arith}
use xrpl_registrar.Common.Tests.{if◌then◌else◌, Bool-cases}
use xrpl_registrar.Common.Text.{eq, eq_iff, eq_refl}

abbrev pub Dict {ℓ} : Type ℓ → Type ℓ
Dict V = List (String × V)

module _ {ℓ} {V : Type ℓ} where
  -- `map.keys()`
  abbrev pub keys : Dict V → List String
  keys = map (λ entry. entry.0)

  -- `map.get(key)`
  unfoldable pub lookup : String → Dict V → Option V
  lookup key [] = none
  lookup key ((first, value) ∷ rest) = if eq first key then some value else lookup key rest

  -- `map.set(key, value)`: an existing key keeps its place.
  unfoldable pub insert : String → V → Dict V → Dict V
  insert key value [] = (key, value) ∷ []
  insert key value ((first, old) ∷ rest) =
      if eq first key then (first, value) ∷ rest else (first, old) ∷ insert key value rest

  pub lookup-insert :
      (key other : String) (value : V) (entries : Dict V)
      → lookup other (insert key value entries)
        ≡ (if eq key other then some value else lookup other entries)
  unfolding insert lookup
  lookup-insert key other value [] = refl
  lookup-insert key other value ((first, old) ∷ rest) =
      let later = lookup-insert key other value rest in
      ground (arith, later, eq_iff first key, eq_iff first other, eq_iff key other)

  pub lookup-insert_self : (k : String) (v : V) (m : Dict V) → lookup k (insert k v m) ≡ some v
  lookup-insert_self k v m = simp (lookup-insert, eq_refl)

  pub lookup-insert_ne :
      (k j : String) (v : V) (m : Dict V) → k ≢ j → lookup j (insert k v m) ≡ lookup j m
  lookup-insert_ne k j v m h = elim (Bool-cases (eq k j)) [
    | inl e ↦ absurd (h ((eq_iff k j).0 e))
    | inr e ↦ rw (lookup-insert k j v m, e)
  ]
