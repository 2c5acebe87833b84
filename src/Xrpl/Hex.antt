-- ===== src/Xrpl/Hex.antt =====
-- src/util/hex.ts: bytes and hexadecimal texts. A text is taken apart into its code points.
use Prim.Native.Char.{Char, char, nul}
use Prim.Native.Nat.{compare, Ordering}
use xrpl_registrar.Common.{
  ℕ, ◌+◌, ◌-◌, ◌*◌, ◌/◌, ◌%◌, String, ◌≡◌, refl, ◌&&◌, Option, none, some, List, [], ◌∷◌, ltb, leb,
  if◌then◌else◌,
}

-- `String.fromCharCode` of a byte.
unfoldable pub to_char : (n : ℕ) (o : Ordering) → compare n 55296 ≡ o → Char
to_char n Ordering.lt e = char n (rw e tt)
to_char n _ e = nul

unfoldable pub text_of : List ℕ → String
unfolding to_char
text_of [] = ""
text_of (b ∷ bs) = String.◌∷◌ (to_char b (compare b 55296) refl) (text_of bs)

-- `[0-9A-Fa-f]`, and the value of the digit.
unfoldable pub hex_value : ℕ → Option ℕ
hex_value c =
    if leb b'0' c && leb c b'9'
    then some (c - b'0')
    else if leb b'A' c && leb c b'F'
    then some (c - b'A' + 10)
    else if leb b'a' c && leb c b'f'
    then some (c - b'a' + 10)
    else none

-- `parseInt(pair, 16)` as a byte: it reads up to the first character that is no digit, and NaN, of
-- a pair that starts with none, is stored as 0.
abbrev pub hex_pair : Option ℕ → Option ℕ → ℕ
hex_pair none low = 0
hex_pair (some high) none = high
hex_pair (some high) (some low) = high * 16 + low

-- `hexToBytes`, of characters that are no signs and no spaces.
unfoldable pub hex_to_bytes : List ℕ → List ℕ
hex_to_bytes (a ∷ b ∷ cs) = hex_pair (hex_value a) (hex_value b) ∷ hex_to_bytes cs
hex_to_bytes _ = []

-- A digit from 0 to 15, in upper case.
unfoldable pub hex_digit : ℕ → ℕ
hex_digit d = if ltb d 10 then b'0' + d else b'A' + (d - 10)

-- `out += b.toString(16).padStart(2, "0")`, then `out.toUpperCase()`
unfoldable pub hex_digits : List ℕ → List ℕ
hex_digits [] = []
hex_digits (b ∷ bs) = hex_digit (b / 16) ∷ hex_digit (b % 16) ∷ hex_digits bs

unfoldable pub bytes_to_hex : List ℕ → String
unfolding hex_digits
bytes_to_hex bytes = text_of (hex_digits bytes)

hex_of_bytes : bytes_to_hex (0 ∷ 255 ∷ 26 ∷ []) ≡ "00FF1A"
unfolding bytes_to_hex text_of hex_digit
hex_of_bytes = refl
