-- ===== src/Common/Text.antt =====
-- Texts are compared whole, by `===` and, in sorts and cursors, by `<`.
use Prim.Native.String.{String, compare, ◌++◌}
use Prim.Native.Nat.{Ordering}
use mathlib.Core.Path.{◌≡◌, refl, subst, sym}
use mathlib.Core.Bool.{Bool, true, false, ◌||◌}
use mathlib.Core.List.{List, [], ◌∷◌}
use mathlib.Core.Logic.{◌↔◌, inl, inr}
use text.Mathlib.Text.{◌==◌}
use text.Mathlib.TextPositions.{compare_refl}
use text.Mathlib.TextEquality.{eq_iff as library_eq_iff}
use xrpl_registrar.Common.Tests.{Bool-cases}

-- `===` on strings.
unfoldable pub eq : String → String → Bool
eq s t = s == t

pub eq_iff : (s t : String) → (eq s t ≡ true) ↔ (s ≡ t)
unfolding eq
eq_iff s t = library_eq_iff s t

pub eq_refl : (s : String) → eq s s ≡ true
eq_refl s = (eq_iff s s).1 refl

-- `<` on strings. The source's texts are ASCII, where code points and UTF-16 units agree.
unfoldable pub lt : String → String → Bool
lt s t = elim (compare s t) [ Ordering.lt ↦ true | _ ↦ false ]

pub lt_irrefl : (s : String) → lt s s ≡ false
unfolding lt
lt_irrefl s = rw (compare_refl s, lt)

-- Equal texts are in neither order.
pub lt-ne : (s t : String) → lt s t ≡ true → eq s t ≡ false
lt-ne s t h = elim (Bool-cases (eq s t)) [
  | inl e ↦ absurd (lt-self s t h ((eq_iff s t).0 e))
  | inr e ↦ e
]
  where
    lt-self : (s t : String) → lt s t ≡ true → s ≡ t → ⊥
    lt-self s t h e = cc (lt_irrefl s, subst (λ u. lt s u ≡ true) (sym e) h)

-- Membership in a set of texts.
abbrev pub one_of : String → List String → Bool
one_of s [] = false
one_of s (t ∷ ts) = eq s t || one_of s ts

-- A template literal from its parts.
abbrev pub template : List String → String
template [] = ""
template (s ∷ ss) = s ++ template ss
