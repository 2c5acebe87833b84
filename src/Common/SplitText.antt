-- ===== src/Common/SplitText.antt =====
-- A text taken apart at the first place where a character stands.
use Prim.Native.Char.{Char, code}
use Prim.Native.Nat.{ℕ}
use Prim.Native.String.{String, ◌++◌ as ◌++ˢ◌}
use Prim.Native.String.append
use mathlib.Core.Path.{◌≡◌, refl}
use mathlib.Core.Logic.{inl, inr}
use mathlib.Core.Bool.{Bool, false, ◌||◌}
use mathlib.Core.Option.{Option, none, some}
use mathlib.Core.List.{[], ◌∷◌}
use native.Mathlib.Omega.{arith}
use text.Mathlib.TextLemmas.{append-nil}
use xrpl_registrar.Common.Tests.{if◌then◌else◌, ◌==◌, Bool-cases}
use xrpl_registrar.Common.Text.{template}

abbrev in_front : Char → Option (String × String) → Option (String × String)
in_front c none = none
in_front c (some (l, r)) = some (String.◌∷◌ c l, r)

-- What stands before the character and after it.
unfoldable pub split_at : ℕ → String → Option (String × String)
split_at mark String.[] = none
split_at mark (String.◌∷◌ c s) =
    if code c == mark then some ("", s) else in_front c (split_at mark s)

abbrev pub has_mark : ℕ → String → Bool
has_mark mark String.[] = false
has_mark mark (String.◌∷◌ c s) = code c == mark || has_mark mark s

split_at-front :
    (mark : ℕ) (s t u : String)
    → has_mark mark s ≡ false
    → split_at mark t ≡ some ("", u)
    → split_at mark (s ++ˢ t) ≡ some (s, u)
unfolding split_at
split_at-front mark String.[] t u h e = rw (append.nil t) e
split_at-front mark (String.◌∷◌ c s) t u h e = elim (Bool-cases (code c == mark)) [
  | inl here ↦ ground arith
  | inr other ↦
      rw (append.cons c s t, split_at, other, split_at-front mark s t u (ground arith) e) refl
]

pub split_at-colon :
    (s t : String)
    → has_mark b':' s ≡ false
    → split_at b':' (template (s ∷ ":" ∷ t ∷ [])) ≡ some (s, t)
unfolding split_at
split_at-colon s t h =
    split_at-front b':' s (":" ++ˢ (t ++ˢ "")) t h
      (rw (append-nil t, append.cons (Prim.Native.String.char_at ":" 0) "" t, append.nil t) refl)

pub split_at-bar :
    (s t : String)
    → has_mark b'|' s ≡ false
    → split_at b'|' (template (s ∷ "|" ∷ t ∷ [])) ≡ some (s, t)
unfolding split_at
split_at-bar s t h =
    split_at-front b'|' s ("|" ++ˢ (t ++ˢ "")) t h
      (rw (append-nil t, append.cons (Prim.Native.String.char_at "|" 0) "" t, append.nil t) refl)
