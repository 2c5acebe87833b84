-- ===== src/Discovery/Scans.antt =====
-- src/discovery/strategies/authScan.ts, trustlineScan.ts and src/discovery/flags.ts: the scans of
-- the issuer's history, over the entries that pageAccountTx yields for their transaction type.
use xrpl_registrar.Common.{
  ℕ, ◌/◌, ◌%◌, String, Bool, ◌&&◌, Option, none, some, List, [], ◌∷◌, ◌==◌, if◌then◌else◌, or_else,
}
use xrpl_registrar.Common.Dict.{Dict}
use xrpl_registrar.Common.Int.{ℤ, pos, negsuc}
use xrpl_registrar.Common.Text.{eq}
use xrpl_registrar.Discovery.Earliest.{
  DiscoveredAccount, authorization, trustline, record_earliest, to_accounts,
}
use xrpl_registrar.Discovery.Entries.{AccountTxEntry, tx_of, when}
use xrpl_registrar.Json.{
  Value, number, as_record, and_then, or_other, get, get_record, get_string, is_text, truthy,
}
use xrpl_registrar.Xrpl.Currency.{currency_to_string}

-- `account !== issuer ? account : undefined`
abbrev other_than : String → Option String → Option String
other_than issuer account = if is_text account issuer then none else account

-- The holder of a row of this issuance.
unfoldable pub authorized_holder : String → String → AccountTxEntry → Option String
authorized_holder mpt_issuance_id issuer entry = and_then (tx_of entry) λ tx.
    when (is_text (get_string "MPTokenIssuanceID" tx) mpt_issuance_id)
      (truthy (or_other (get_string "Holder" tx) (other_than issuer (get_string "Account" tx))))

unfoldable pub line_holder : String → String → AccountTxEntry → Option String
line_holder currency issuer entry = and_then (tx_of entry) λ tx.
    and_then (get_record "LimitAmount" tx) λ limit.
      when
        (is_text (get_string "issuer" limit) issuer
          && eq (currency_to_string (or_else (get_string "currency" limit) "")) currency)
        (truthy (other_than issuer (get_string "Account" tx)))

-- `recordEarliest(first, holder, entry.ledger_index ?? null)` of each holder.
unfoldable pub scan :
    (AccountTxEntry → Option String) → List AccountTxEntry → Dict (Option ℕ) → Dict (Option ℕ)
scan holder [] first = first
scan holder (entry ∷ rest) first = scan holder rest (elim (holder entry) [
  | none ↦ first
  | some address ↦ record_earliest address entry.ledger_index first
])

unfoldable pub authorization_scan : String → String → List AccountTxEntry → List DiscoveredAccount
unfolding scan authorized_holder
authorization_scan mpt_issuance_id issuer entries =
    to_accounts (scan (authorized_holder mpt_issuance_id issuer) entries []) authorization

unfoldable pub trustline_scan : String → String → List AccountTxEntry → List DiscoveredAccount
unfolding scan line_holder
trustline_scan currency issuer entries =
    to_accounts (scan (line_holder currency issuer) entries []) trustline

abbrev pub lsf_mpt_require_auth : ℕ
lsf_mpt_require_auth = 4

-- `(flags & LSF_MPT_REQUIRE_AUTH) !== 0`: bit 2 of the two's complement.
unfoldable pub has_flag : ℕ → ℤ → Bool
has_flag flag (pos n) = (n / flag) % 2 == 1
has_flag flag (negsuc n) = (n / flag) % 2 == 0

abbrev flags_of : Option Value → ℤ
flags_of (some (number n)) = n
flags_of _ = pos 0

-- From `res.result.node`.
unfoldable pub detect_requires_auth : Option Value → Bool
unfolding has_flag
detect_requires_auth node = elim (and_then node as_record) [
  | none ↦ has_flag lsf_mpt_require_auth (pos 0)
  | some r ↦ has_flag lsf_mpt_require_auth (flags_of (get "Flags" r))
]
