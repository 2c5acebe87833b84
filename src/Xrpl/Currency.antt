-- ===== src/Xrpl/Currency.antt =====
-- src/xrpl/currency.ts: the readable form of a currency code and the one on the wire. The hexadecimal
-- form of a text is xrpl's, and trimming the language's: both are arguments.
pub mod RoundTrip
use Prim.Native.String.{count}
use xrpl_registrar.Common.{
  ℕ, zero, suc, ◌-◌, String, ◌≡◌, refl, Bool, true, false, ◌&&◌, none, some, List, [], ◌∷◌, ◌++◌,
  map, ltb, leb, ◌==◌, if◌then◌else◌, length,
}
use xrpl_registrar.Common.BigInt.{codes}
use xrpl_registrar.Common.Text.{eq}
use xrpl_registrar.Xrpl.Hex.{text_of, hex_value, hex_to_bytes}

is_hex : List ℕ → Bool
is_hex [] = true
is_hex (c ∷ cs) = elim (hex_value c) [ none ↦ false | some d ↦ is_hex cs ]

-- The loop that breaks at a zero byte.
unfoldable pub until_nul : List ℕ → List ℕ
until_nul [] = []
until_nul (b ∷ bs) = if b == 0 then [] else b ∷ until_nul bs

-- `out || code`
abbrev non_empty : String → String → String
non_empty out code = if eq out "" then code else out

unfoldable pub currency_to_string : String → String
unfolding is_hex
currency_to_string code =
    if count code == 3
    then code
    else if length (codes code) == 40 && is_hex (codes code)
    then non_empty (text_of (until_nul (hex_to_bytes (codes code)))) code
    else code

abbrev pub replicate : ℕ → ℕ → List ℕ
replicate zero c = []
replicate (suc n) c = c ∷ replicate n c

-- `toUpperCase` and `padEnd`, on hexadecimal digits.
abbrev pub upper : ℕ → ℕ
upper c = if leb b'a' c && leb c b'z' then c - 32 else c

abbrev pub pad_end : ℕ → ℕ → List ℕ → List ℕ
pad_end n c cs = cs ++ replicate (n - length cs) c

module _ (string_to_hex : String → String) where
  unfoldable pub currency_to_wire : String → String
  currency_to_wire code =
      if count code == 3
      then code
      else text_of (pad_end 40 b'0' (map upper (codes (string_to_hex code))))

pub data Normalized : Type 0 where
  stored : (code : String) → Normalized
  required reserved : Normalized
  too_long : (code : String) → Normalized

unfoldable pub normalize_currency : (String → String) → String → Normalized
normalize_currency trim input =
    let code = currency_to_string (trim input) in
    if eq code ""
    then required
    else if eq code "XRP"
    then reserved
    else if ltb 20 (count code)
    then too_long code
    else stored code

plain_code : currency_to_string "USD" ≡ "USD"
unfolding currency_to_string
plain_code = refl

wire_code : currency_to_string "4655534400000000000000000000000000000000" ≡ "FUSD"
unfolding currency_to_string text_of hex_value hex_to_bytes until_nul eq
wire_code = refl
