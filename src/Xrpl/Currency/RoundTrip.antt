-- ===== src/Xrpl/Currency/RoundTrip.antt =====
-- currencyToWire and currencyToString are inverse on the codes that the archive stores.
use Prim.Native.Char.{code}
use Prim.Native.Nat.{compare, Ordering}
use Prim.Native.String.{count}
use Prim.Native.String.count as count_clauses
use text.Mathlib.TextEquality.{Char-path}
use xrpl_registrar.Common.{
  ℕ, zero, suc, ◌-◌, ◌*◌, ◌/◌, ◌%◌, ◌≤◌, ◌<◌, String, ◌≡◌, refl, ap, ◌∙◌, ◌≢◌, inl, inr, true, some,
  List, [], ◌∷◌, ◌++◌, map, arith, ◌==◌, Bool-cases, length, length-append, All,
}
use xrpl_registrar.Common.BigInt.{codes}
use xrpl_registrar.Common.Text.{eq_iff}
use xrpl_registrar.Xrpl.Currency.{
  is_hex, until_nul, currency_to_string, currency_to_wire, replicate, upper, pad_end,
}
use xrpl_registrar.Xrpl.Hex.{text_of, to_char, hex_value, hex_to_bytes, hex_digit, hex_digits}

-- A character that the readable codes consist of: ASCII, and not NUL.
abbrev pub IsPlain : ℕ → Type 0
IsPlain c = (1 ≤ c) × (c < 128)

code-to_char :
    (n : ℕ) (o : Ordering) (e : compare n 55296 ≡ o) → n < 55296 → code (to_char n o e) ≡ n
unfolding to_char
code-to_char n Ordering.lt e h = refl
code-to_char n Ordering.eq e h = absurd (ground arith)
code-to_char n Ordering.gt e h = absurd (ground arith)

pub codes-text_of : (bs : List ℕ) → All (λ b. b < 55296) bs → codes (text_of bs) ≡ bs
unfolding text_of
codes-text_of [] h = refl
codes-text_of (b ∷ bs) (h, hs) = rw (code-to_char b _ refl h, codes-text_of bs hs)

count-text_of : (bs : List ℕ) → count (text_of bs) ≡ length bs
unfolding text_of
count-text_of [] = count_clauses.nil
count-text_of (b ∷ bs) = rw (count_clauses.cons, count-text_of bs)

text_of-codes : (s : String) → All IsPlain (codes s) → text_of (codes s) ≡ s
unfolding text_of
text_of-codes String.[] h = refl
text_of-codes (String.◌∷◌ c s) (h, hs) = λ i.
    String.◌∷◌
      (Char-path (to_char (code c) _ refl) c (code-to_char (code c) _ refl (omega arith)) i)
      (text_of-codes s hs i)

hex_value-hex_digit : (d : ℕ) → d < 16 → hex_value (hex_digit d) ≡ some d
unfolding hex_value hex_digit
hex_value-hex_digit d h = ground arith

is_hex-cons : (c d : ℕ) (cs : List ℕ) → hex_value c ≡ some d → is_hex (c ∷ cs) ≡ is_hex cs
unfolding is_hex
is_hex-cons c d cs h = rw (h, is_hex)

is_hex-hex_digits :
    (cs ds : List ℕ) → All IsPlain cs → is_hex ds ≡ true → is_hex (hex_digits cs ++ ds) ≡ true
unfolding hex_digits
is_hex-hex_digits [] ds h k = k
is_hex-hex_digits (c ∷ cs) ds (h, hs) k =
    is_hex-cons _ _ _ (hex_value-hex_digit (c / 16) (omega arith))
    ∙ is_hex-cons _ _ _ (hex_value-hex_digit (c % 16) (omega arith))
    ∙ is_hex-hex_digits cs ds hs k

abbrev twice : ℕ → ℕ
twice zero = 0
twice (suc n) = suc (suc (twice n))

is_hex-zeros : (n : ℕ) → is_hex (replicate n b'0') ≡ true
unfolding is_hex hex_value
is_hex-zeros zero = refl
is_hex-zeros (suc n) = is_hex-zeros n

hex_to_bytes-zeros : (n : ℕ) → hex_to_bytes (replicate (twice n) b'0') ≡ replicate n 0
unfolding hex_to_bytes hex_value
hex_to_bytes-zeros zero = refl
hex_to_bytes-zeros (suc n) = rw (hex_to_bytes-zeros n)

hex_to_bytes-hex_digits :
    (cs : List ℕ) (n : ℕ)
    → All IsPlain cs
    → hex_to_bytes (hex_digits cs ++ replicate (twice n) b'0') ≡ cs ++ replicate n 0
unfolding hex_to_bytes hex_digits
hex_to_bytes-hex_digits [] n h = hex_to_bytes-zeros n
hex_to_bytes-hex_digits (c ∷ cs) n (h, hs) =
    rw
      (
        hex_value-hex_digit (c / 16) (omega arith),
        hex_value-hex_digit (c % 16) (omega arith),
        hex_to_bytes-hex_digits cs n hs,
      )
      (ap (λ (b : ℕ). b ∷ (cs ++ replicate n 0)) (omega arith))

until_nul-zeros : (n : ℕ) → until_nul (replicate n 0) ≡ []
unfolding until_nul
until_nul-zeros zero = refl
until_nul-zeros (suc n) = refl

until_nul-append : (cs : List ℕ) (n : ℕ) → All IsPlain cs → until_nul (cs ++ replicate n 0) ≡ cs
unfolding until_nul
until_nul-append [] n h = until_nul-zeros n
until_nul-append (c ∷ cs) n (h, hs) = ground (arith, until_nul-append cs n hs)

length-replicate : (n c : ℕ) → length (replicate n c) ≡ n
length-replicate zero c = refl
length-replicate (suc n) c = omega (arith, length-replicate n c)

length-hex_digits : (cs : List ℕ) → length (hex_digits cs) ≡ twice (length cs)
unfolding hex_digits
length-hex_digits [] = refl
length-hex_digits (c ∷ cs) = omega (arith, length-hex_digits cs)

twice_lem : (n : ℕ) → twice n ≡ 2 * n
twice_lem zero = refl
twice_lem (suc n) = omega (arith, twice_lem n)

count-codes : (s : String) → count s ≡ length (codes s)
count-codes String.[] = count_clauses.nil
count-codes (String.◌∷◌ c s) = rw (count_clauses.cons, count-codes s)

pub below :
    (cs ds : List ℕ)
    → All IsPlain cs
    → All (λ b. b < 55296) ds
    → All (λ b. b < 55296) (hex_digits cs ++ ds)
unfolding hex_digits hex_digit
below [] ds h k = k
below (c ∷ cs) ds (h, hs) k = (ground arith, (ground arith, below cs ds hs k))

zeros_below : (n : ℕ) → All (λ b. b < 55296) (replicate n b'0')
zeros_below zero = tt
zeros_below (suc n) = (omega arith, zeros_below n)

-- The code on the wire, digit by digit.
abbrev wire : List ℕ → List ℕ
wire cs = hex_digits cs ++ replicate (twice (20 - length cs)) b'0'

pad_end-hex_digits : (cs : List ℕ) → length cs ≤ 20 → pad_end 40 b'0' (hex_digits cs) ≡ wire cs
pad_end-hex_digits cs h =
    ap (λ (n : ℕ). hex_digits cs ++ replicate n b'0')
      (omega (arith, length-hex_digits cs, twice_lem (length cs), twice_lem (20 - length cs)))

length-wire : (cs : List ℕ) → length cs ≤ 20 → length (wire cs) ≡ 40
length-wire cs h = omega (
  arith,
  length-append (hex_digits cs) (replicate (twice (20 - length cs)) b'0'),
  length-replicate (twice (20 - length cs)) b'0',
  length-hex_digits cs,
  twice_lem (length cs),
  twice_lem (20 - length cs),
)

read_wire :
    (s : String)
    → All IsPlain (codes s)
    → s ≢ ""
    → length (codes s) ≤ 20
    → currency_to_string (text_of (wire (codes s))) ≡ s
unfolding currency_to_string
read_wire s plain some_text short =
    rw
      (
        count-text_of (wire (codes s)),
        codes-text_of (wire (codes s)) (below (codes s) _ plain (zeros_below _)),
        length-wire (codes s) short,
        is_hex-hex_digits (codes s) _ plain (is_hex-zeros (twice (20 - length (codes s)))),
        hex_to_bytes-hex_digits (codes s) (20 - length (codes s)) plain,
        until_nul-append (codes s) (20 - length (codes s)) plain,
        text_of-codes s plain,
      )
      (ground (arith, eq_iff s ""))

three_letters : (s : String) → (count s == 3) ≡ true → currency_to_string s ≡ s
unfolding currency_to_string
three_letters s h = rw h

-- A currency code of at most 20 ASCII characters is read back from its form on the wire, where the
-- library's hexadecimal form of an ASCII text is that of its bytes.
pub currency_to_string-currency_to_wire :
    (string_to_hex : String → String)
    → ((s : String)
        → All IsPlain (codes s)
        → map upper (codes (string_to_hex s)) ≡ hex_digits (codes s))
    → (s : String) → All IsPlain (codes s)
    → s ≢ ""
    → length (codes s) ≤ 20
    → currency_to_string (currency_to_wire string_to_hex s) ≡ s
unfolding currency_to_wire
currency_to_string-currency_to_wire string_to_hex hex s plain some_text short =
    elim (Bool-cases (count s == 3)) [
      | inl three ↦ rw three (three_letters s three)
      | inr other ↦
          rw (other, hex s plain, pad_end-hex_digits (codes s) short)
            (read_wire s plain some_text short)
    ]
