-- ===== src/Xrpl/Mpt.antt =====
-- src/xrpl/mpt.ts: the parts of an MPTokenIssuanceID. The address codec is a parameter.
use xrpl_registrar.Common.{
  ℕ, zero, suc, ◌+◌, ◌*◌, String, ◌≡◌, refl, Option, none, some, List, [], ◌∷◌, take,
}
use xrpl_registrar.Common.BigInt.{codes}
use xrpl_registrar.Xrpl.Hex.{hex_value, hex_to_bytes}

-- `parseInt(id.slice(0, 8), 16)`, which reads up to the first character that is no digit; `none` is
-- NaN, of a text without a digit.
hex_from : ℕ → List ℕ → ℕ
unfolding hex_value
hex_from acc [] = acc
hex_from acc (c ∷ cs) = elim (hex_value c) [ none ↦ acc | some d ↦ hex_from (acc * 16 + d) cs ]

unfoldable pub parse_hex : List ℕ → Option ℕ
unfolding hex_value hex_from
parse_hex [] = none
parse_hex (c ∷ cs) = elim (hex_value c) [ none ↦ none | some d ↦ some (hex_from d cs) ]

unfoldable pub mpt_sequence : String → Option ℕ
unfolding parse_hex
mpt_sequence mpt_issuance_id = parse_hex (take 8 (codes mpt_issuance_id))

-- `id.slice(n)`
abbrev skip : ℕ → List ℕ → List ℕ
skip zero cs = cs
skip (suc n) [] = []
skip (suc n) (c ∷ cs) = skip n cs

-- Where the codec may throw, `R` is an Option.
module _ {R : Type 0} (encode_account_id : List ℕ → R) where
  unfoldable pub decode_mpt_issuer : String → R
  decode_mpt_issuer mpt_issuance_id =
      encode_account_id (hex_to_bytes (skip 8 (codes mpt_issuance_id)))

sequence : mpt_sequence "0000001Ff00" ≡ some 31
unfolding mpt_sequence
sequence = refl
