-- ===== src/Common/TextOrder.antt =====
-- `<` on strings is a strict order in which any two different texts compare.
use Prim.Native.Char.{Char, code}
use Prim.Native.Nat.{compare, Ordering}
use Prim.Native.String.{String, then as by_heads, compare as compare_text}
use Prim.Native.String.compare
use mathlib.Core.Path.{◌≡◌, refl}
use mathlib.Core.Bool.{true, false, ◌&&◌, ◌||◌}
use text.Mathlib.Text.{is_eq}
use native.Mathlib.Omega.{arith}
use xrpl_registrar.Common.Tests.{ltb, ◌==◌}
use xrpl_registrar.Common.Text.{eq, eq_refl, lt}

lt_nil : (s : String) → lt s String.[] ≡ false
unfolding lt
lt_nil String.[] = refl
lt_nil (String.◌∷◌ c s) = rw (compare.cons-nil c s, lt) refl

lt-nil_cons : (d : Char) (t : String) → lt String.[] (String.◌∷◌ d t) ≡ true
unfolding lt
lt-nil_cons d t = rw (compare.nil-cons d t, lt) refl

lt-cons :
    (c d : Char) (s t : String)
    → lt (String.◌∷◌ c s) (String.◌∷◌ d t) ≡ (ltb (code c) (code d) || (code c == code d) && lt s t)
unfolding lt
lt-cons c d s t = rw (compare.cons-cons c d s t, lt) (heads (compare (code c) (code d)))
  where
    heads :
        (o : Ordering)
        → elim (by_heads o (compare_text s t)) [ Ordering.lt ↦ true | _ ↦ false ] ≡ (
            elim o [ Ordering.lt ↦ true | _ ↦ false ]
            || elim o [ Ordering.eq ↦ true | _ ↦ false ]
              && elim (compare_text s t) [ Ordering.lt ↦ true | _ ↦ false ])
    heads Ordering.lt = refl
    heads Ordering.eq = refl
    heads Ordering.gt = refl

eq-cons :
    (c d : Char) (s t : String)
    → eq (String.◌∷◌ c s) (String.◌∷◌ d t) ≡ ((code c == code d) && eq s t)
unfolding eq
eq-cons c d s t = rw (compare.cons-cons c d s t, eq) (heads (compare (code c) (code d)))
  where
    heads :
        (o : Ordering)
        → is_eq (by_heads o (compare_text s t))
          ≡ (elim o [ Ordering.eq ↦ true | _ ↦ false ] && is_eq (compare_text s t))
    heads Ordering.lt = refl
    heads Ordering.eq = refl
    heads Ordering.gt = refl

pub lt_trans : (s t u : String) → lt s t ≡ true → lt t u ≡ true → lt s u ≡ true
lt_trans s String.[] u h k = ground (arith, lt_nil s)
lt_trans s t String.[] h k = ground (arith, lt_nil t)
lt_trans String.[] (String.◌∷◌ d t) (String.◌∷◌ e u) h k = lt-nil_cons e u
lt_trans (String.◌∷◌ c s) (String.◌∷◌ d t) (String.◌∷◌ e u) h k =
    ground (arith, lt-cons c d s t, lt-cons d e t u, lt-cons c e s u, lt_trans s t u)

pub lt_asymm : (s t : String) → lt s t ≡ true → lt t s ≡ false
lt_asymm String.[] t h = lt_nil t
lt_asymm s String.[] h = ground (arith, lt_nil s)
lt_asymm (String.◌∷◌ c s) (String.◌∷◌ d t) h =
    ground (arith, lt-cons c d s t, lt-cons d c t s, lt_asymm s t)

-- Of two texts one comes first, unless they are the same.
pub lt_total : (s t : String) → lt s t ≡ false → lt t s ≡ false → eq s t ≡ true
lt_total String.[] String.[] h k = eq_refl String.[]
lt_total String.[] (String.◌∷◌ d t) h k = ground (arith, lt-nil_cons d t)
lt_total (String.◌∷◌ c s) String.[] h k = ground (arith, lt-nil_cons c s)
lt_total (String.◌∷◌ c s) (String.◌∷◌ d t) h k =
    ground (arith, lt-cons c d s t, lt-cons d c t s, eq-cons c d s t, lt_total s t)
