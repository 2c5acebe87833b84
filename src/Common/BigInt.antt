-- ===== src/Common/BigInt.antt =====
-- `BigInt(text)`: a decimal integer with an optional sign, or a prefixed hexadecimal, octal or
-- binary one, between white space. The empty text is 0; anything else throws, here `none`.
use Prim.Native.Char.{code}
use Prim.Native.Nat.{ℕ, ◌+◌, ◌-◌, ◌*◌}
use Prim.Native.String.{String}
use mathlib.Core.Path.{◌≡◌, refl}
use mathlib.Core.Bool.{Bool, ◌&&◌, ◌||◌}
use mathlib.Core.Option.{Option, none, some}
use mathlib.Core.List.{List, [], ◌∷◌, reverse}
use xrpl_registrar.Common.Tests.{ltb, leb, ◌==◌, if◌then◌else◌}
use xrpl_registrar.Common.Int.{ℤ, pos, sub_ℕ}

-- The code points of a text.
abbrev pub codes : String → List ℕ
codes String.[] = []
codes (String.◌∷◌ c s) = code c ∷ codes s

is_space : ℕ → Bool
is_space c = (leb 9 c && leb c 13) || c == 32 || c == 160 || c == 65279

trim_start : List ℕ → List ℕ
trim_start [] = []
trim_start (c ∷ cs) = if is_space c then trim_start cs else c ∷ cs

digit : ℕ → Option ℕ
digit c =
    if leb b'0' c && leb c b'9'
    then some (c - b'0')
    else if leb b'a' c && leb c b'f'
    then some (c - b'a' + 10)
    else if leb b'A' c && leb c b'F'
    then some (c - b'A' + 10)
    else none

digits_from : ℕ → ℕ → List ℕ → Option ℕ
digits_from base acc [] = some acc
digits_from base acc (c ∷ cs) = elim (digit c) [
  | none ↦ none
  | some d ↦ if ltb d base then digits_from base (acc * base + d) cs else none
]

-- At least one digit.
digits : ℕ → List ℕ → Option ℕ
unfolding digit digits_from
digits base [] = none
digits base (c ∷ cs) = digits_from base 0 (c ∷ cs)

abbrev as_pos : Option ℕ → Option ℤ
as_pos none = none
as_pos (some n) = some (pos n)

abbrev as_neg : Option ℕ → Option ℤ
as_neg none = none
as_neg (some n) = some (sub_ℕ 0 n)

-- After a leading zero: a base prefix or more decimal digits.
after_zero : List ℕ → Option ℤ
unfolding digits
after_zero [] = some (pos 0)
after_zero (c ∷ cs) =
    if c == b'x' || c == b'X'
    then as_pos (digits 16 cs)
    else if c == b'o' || c == b'O'
    then as_pos (digits 8 cs)
    else if c == b'b' || c == b'B'
    then as_pos (digits 2 cs)
    else as_pos (digits 10 (c ∷ cs))

literal : List ℕ → Option ℤ
unfolding after_zero
literal [] = some (pos 0)
literal (c ∷ cs) =
    if c == b'-'
    then as_neg (digits 10 cs)
    else if c == b'+'
    then as_pos (digits 10 cs)
    else if c == b'0'
    then after_zero cs
    else as_pos (digits 10 (c ∷ cs))

unfoldable pub big_int : String → Option ℤ
unfolding is_space trim_start literal
big_int s = literal (reverse (trim_start (reverse (trim_start (codes s)))))

big_int_decimal : big_int " -120 " ≡ some (ℤ.negsuc 119)
unfolding big_int
big_int_decimal = refl

big_int_hex : big_int "0xfF" ≡ some (pos 255)
unfolding big_int
big_int_hex = refl

big_int_refused : big_int "1.5" ≡ none
unfolding big_int
big_int_refused = refl
