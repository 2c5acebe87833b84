-- ===== src/Tests/Codes.antt =====
-- Currency codes at concrete inputs.
use mathlib.Core.List.{append-nil}
use xrpl_registrar.Common.{
  ℕ, zero, suc, ◌+◌, ◌-◌, ◌*◌, ◌/◌, ◌%◌, ◌^◌, ◌≤◌, ◌<◌, min, max, String, ◌≡◌, refl, sym, ap, ◌∙◌,
  subst, ◌≢◌, ◌↔◌, ◌⊎◌, inl, inr, Bool, true, false, not, ◌&&◌, ◌||◌, Option, none, some, List, [],
  ◌∷◌, ◌++◌, map, arith, ltb, leb, ◌==◌, ==_iff, if◌then◌else◌, Bool-cases, Option-cases, or_else,
  length, length-append, take, last, List-cases, keep_if, All, Any, All-append, Any-append_left,
  Any-append_right,
}
use xrpl_registrar.Common.BigInt.{codes}
use xrpl_registrar.Common.Text.{eq_iff}
use xrpl_registrar.Xrpl.Currency.{
  currency_to_string, currency_to_wire, upper, Normalized, stored, reserved, normalize_currency,
}
use xrpl_registrar.Xrpl.Currency.RoundTrip.{
  IsPlain, codes-text_of, below, currency_to_string-currency_to_wire,
}
use xrpl_registrar.Xrpl.Hex.{text_of, hex_value, hex_to_bytes, hex_digit, hex_digits, bytes_to_hex}

-- A concrete `convertStringToHex`.
abbrev pub hex_of : String → String
hex_of s = bytes_to_hex (codes s)

upper-hex_digits : (cs : List ℕ) → All IsPlain cs → map upper (hex_digits cs) ≡ hex_digits cs
unfolding hex_digits hex_digit
upper-hex_digits [] h = refl
upper-hex_digits (c ∷ cs) (h, hs) = ground (arith, upper-hex_digits cs hs)

hex_of_ascii :
    (s : String) → All IsPlain (codes s) → map upper (codes (hex_of s)) ≡ hex_digits (codes s)
unfolding bytes_to_hex
hex_of_ascii s h =
    rw (codes-text_of (hex_digits (codes s)) digits_below) (upper-hex_digits (codes s) h)
  where
    digits_below : All (λ b. b < 55296) (hex_digits (codes s))
    digits_below = subst (All (λ b. b < 55296)) (append-nil _) (below (codes s) [] h tt)

currency_to_string-currency_to_wire_example :
    currency_to_string (currency_to_wire hex_of "TOKEN") ≡ "TOKEN"
currency_to_string-currency_to_wire_example =
    currency_to_string-currency_to_wire hex_of hex_of_ascii "TOKEN" (omega arith)
      (λ e. cc (ap codes e)) (omega arith)

abbrev untrimmed : String → String
untrimmed s = s

wire_input :
    normalize_currency untrimmed "544F4B454E000000000000000000000000000000" ≡ stored "TOKEN"
unfolding normalize_currency currency_to_string text_of hex_value hex_to_bytes
    xrpl_registrar.Xrpl.Currency.until_nul xrpl_registrar.Common.Text.eq
    xrpl_registrar.Xrpl.Hex.to_char
wire_input = refl

xrp_is_reserved : normalize_currency untrimmed "XRP" ≡ reserved
unfolding normalize_currency currency_to_string xrpl_registrar.Common.Text.eq
xrp_is_reserved = refl
