-- ===== src/Api/GatewayBalances.antt =====
-- src/api/methods/gatewayBalances.ts: the archive's `gateway_balances`, over the coverage check. SQL's
-- numeric sum, Big's operations, the printing of numbers and the hexadecimal form of a text are
-- parameters. `none` is the exception of a sum that is no number.
pub mod Split
use xrpl_registrar.Common.{
  ℕ, zero, min, max, String, Bool, true, false, not, ◌&&◌, Option, none, some, List, [], ◌∷◌, ◌++◌,
  map, leb, ◌==◌, if◌then◌else◌, or_else, keep_if,
}
use xrpl_registrar.Common.Dict.{Dict, lookup, insert}
use xrpl_registrar.Common.Int.{pos}
use xrpl_registrar.Common.Set.{add_each}
use xrpl_registrar.Common.Sort.{sort}
use xrpl_registrar.Common.Text.{eq, lt, template, one_of}
use xrpl_registrar.Api.Coverage.{Window, check_coverage}
use xrpl_registrar.Api.Reporting.{ReportDb, Entry, joined_entries}
use xrpl_registrar.Api.Responses.{
  Warning, ApiRequest, MethodResult, error_result, invalid_params, not_in_archive, set,
}
use xrpl_registrar.Api.Scope.{latest_ledger, summarize, to_items}
use xrpl_registrar.Db.Issuances.{IssuanceRecord, mpt, iou}
use xrpl_registrar.Json.{
  Value, Fields, end, field, null, boolean, number, string, array, object, items, get, get_string,
  truthy, is_text,
}
use xrpl_registrar.Reconcile.Iou.{Decimals}
use xrpl_registrar.Xrpl.Currency.{currency_to_wire}

pub record IouIssuance : Type 0 where
  pub id : ℕ
  pub currency : String

abbrev add_text : Value → Option (List String) → Option (List String)
add_text (string s) (some ss) = some (s ∷ ss)
add_text _ _ = none

-- `raw.every((x) => typeof x === "string")`
abbrev all_texts : List Value → Option (List String)
all_texts [] = some []
all_texts (v ∷ vs) = add_text v (all_texts vs)

-- `none` is the error.
unfoldable pub parse_hotwallets : Option Value → Option (List String)
parse_hotwallets none = some []
parse_hotwallets (some (string s)) = some (s ∷ [])
parse_hotwallets (some (array vs)) = all_texts (items vs)
parse_hotwallets (some _) = none

unfoldable pub resolve_ledger_index : Option Value → ℕ → Option ℕ
resolve_ledger_index none latest = some latest
resolve_ledger_index (some (string s)) latest =
    if one_of s ("validated" ∷ "current" ∷ "latest" ∷ []) then some latest else none
resolve_ledger_index (some (number (pos n))) latest = some n
resolve_ledger_index (some _) latest = none

abbrev is_issued_by : String → IssuanceRecord → Bool
is_issued_by account r =
    elim r.kind [ mpt ↦ false | iou ↦ true ] && is_text r.issuer_account account && r.enabled

-- `SELECT id, currency FROM issuances WHERE … ORDER BY currency`
unfoldable pub iou_issuances_of : ReportDb → String → List IouIssuance
iou_issuances_of db account =
    map (λ r. record { id = r.id; currency = or_else r.currency "" })
      (sort (λ a b. lt (or_else a.currency "") (or_else b.currency ""))
        (keep_if (is_issued_by account) db.read.issuances.rows))

abbrev members_of : ReportDb → ℕ → List String
members_of db id = map (λ m. m.address) (keep_if (λ m. m.issuance_id == id) db.account_issuance)

abbrev addresses : List Entry → List String
addresses = map (λ e. e.address)

abbrev amounts_of : String → List Entry → List String
amounts_of address es = map (λ e. e.delta) (keep_if (λ e. eq e.address address) es)

unfoldable pub gateway_assets_not_tracked_warning : Warning
gateway_assets_not_tracked_warning = record {
  id = 65004;
  message =
      "gateway_balances from this filtered archive reports the issuer's obligations (and any hot-wallet balances) only. It does NOT report 'assets' — tokens the issuer holds that were issued by others — which are out of scope; query an upstream node for those.";
  details = none;
}

abbrev window_value : Option Window → Value
window_value none = null
window_value (some w) =
    object (field "min" (number (pos w.min)) (field "max" (number (pos w.max)) end))

unfoldable pub out_of_coverage : (ℕ → String) → String → ℕ → String × Option Window → Fields
out_of_coverage print account ledger (currency, cov) =
    error_result "outOfCoverage"
      (template (
        "The archive's guaranteed coverage for "
        ∷ currency
        ∷ "/"
        ∷ account
        ∷ " does not include ledger "
        ∷ print ledger
        ∷ "; refusing to report a possibly-incomplete total."
        ∷ []))
      (field "details"
        (object (
          field "currency" (string currency) (
            field "issuer" (string account) (
              field "requestedLedger" (number (pos ledger))
                (field "coverage" (window_value cov) end)))))
        end)

-- `(balances[address] ??= []).push(…)`
abbrev pub Balances : Type 0
Balances = Dict (List (String × String))

unfoldable pub push_balance : String → String × String → Balances → Balances
push_balance address b m = insert address (or_else (lookup address m) [] ++ b ∷ []) m

abbrev balance_fields : Balances → Fields
balance_fields [] = end
balance_fields ((address, bs) ∷ rest) =
    field address
      (array (
        to_items
          (map (λ b. object (field "currency" (string b.0) (field "value" (string b.1) end))) bs)))
      (balance_fields rest)

-- `...(Object.keys(balances).length > 0 ? { balances } : {})`
abbrev with_balances : Balances → Fields → Fields
with_balances [] rest = rest
with_balances (b ∷ bs) rest = field "balances" (object (balance_fields (b ∷ bs))) rest

module _ {B : Type 0} (big : Decimals B) where
  -- What the loop over the holders has so far.
  pub record Totals : Type 0 where
    pub obligation : B
    pub balances : Balances

  unfoldable pub add_holder : String → List String → String → String → B → Totals → Totals
  unfolding push_balance
  add_holder account hotwallets wire_currency address bal t =
      if big.equal bal big.zero
      then t
      else if one_of address hotwallets
      then record t { balances = push_balance address (wire_currency, big.print bal) t.balances }
      else record t { obligation = big.plus t.obligation bal }

  -- One round of the loop: a row of the issuer is passed over before its sum is read.
  unfoldable pub add_row : String → List String → String → String × String → Totals → Option Totals
  add_row account hotwallets wire_currency (address, text) t =
      if eq address account then some t else elim (big.parse text) [
        | none ↦ none
        | some bal ↦ some (add_holder account hotwallets wire_currency address bal t)
      ]

  unfoldable pub add_holders :
      String → List String → String → List (String × String) → Totals → Option Totals
  add_holders account hotwallets wire_currency [] t = some t
  add_holders account hotwallets wire_currency (row ∷ rows) t =
      elim (add_row account hotwallets wire_currency row t) [
        | none ↦ none
        | some t' ↦ add_holders account hotwallets wire_currency rows t'
      ]

  module _ (sum : List String → String) (string_to_hex : String → String) (print : ℕ → String) where
    -- `SELECT address, sum(delta) … WHERE issuance_id = $1 AND ledger_index <= $2 GROUP BY address`
    unfoldable pub holder_sums : ReportDb → ℕ → ℕ → List (String × String)
    unfolding joined_entries
    holder_sums db issuance_id ledger =
        let es =
          keep_if (λ e. e.issuance_id == issuance_id && leb e.ledger ledger)
            (joined_entries db.balance_deltas db.read.archive.transactions) in
        map (λ a. (a, sum (amounts_of a es))) (add_each (addresses es) [])

    -- `if (!obligation.eq(0)) obligations[wireCurrency] = …`
    abbrev note_obligation : String → B → Fields → Fields
    note_obligation wire_currency b obligations =
        if big.equal b big.zero
        then obligations
        else set wire_currency (string (big.print b)) obligations

    unfoldable pub add_issuances :
        ReportDb
        → String
        → List String
        → ℕ
        → List IouIssuance
        → Fields × Balances
        → Option (Fields × Balances)
    unfolding holder_sums add_holders add_row
    add_issuances db account hotwallets ledger [] s = some s
    add_issuances db account hotwallets ledger (iss ∷ rest) (obligations, balances) =
        let wire_currency = currency_to_wire string_to_hex iss.currency in
        elim (add_holders account hotwallets wire_currency (holder_sums db iss.id ledger)
          (record { obligation = big.zero; balances = balances })) [
            | none ↦ none
            | some t ↦
                add_issuances db account hotwallets ledger rest
                  (note_obligation wire_currency t.obligation obligations, t.balances)
          ]

    abbrev plain : Fields → Option MethodResult
    plain result = some (record { result = result; extra_warnings = [] })

    abbrev answered : String → ℕ → Option (Fields × Balances) → Option MethodResult
    answered account ledger none = none
    answered account ledger (some (obligations, balances)) = some (record {
      result = field "status" (string "success") (
          field "account" (string account) (
            field "obligations" (object obligations) (
              with_balances balances (
                field "ledger_index" (number (pos ledger))
                  (field "validated" (boolean true) end)))));
      extra_warnings = gateway_assets_not_tracked_warning ∷ [];
    })

    unfoldable pub covered_answer :
        ReportDb → String → List String → List IouIssuance → ℕ → Option MethodResult
    unfolding out_of_coverage add_issuances
    covered_answer db account hotwallets issuances ledger =
        elim (check_coverage ledger (map (λ i. (i.currency, members_of db i.id)) issuances)
          db.read.coverage db.read.ledgers) [
            | some refusal ↦ plain (out_of_coverage print account ledger refusal)
            | none ↦
                answered account ledger
                  (add_issuances db account hotwallets ledger issuances (end, []))
          ]

    abbrev for_issuances :
        ReportDb → ApiRequest → String → List String → List IouIssuance → Option MethodResult
    for_issuances db req account hotwallets [] =
        plain (not_in_archive (template ("IOU issuer " ∷ account ∷ [])) (summarize db.read))
    for_issuances db req account hotwallets (i ∷ is) =
        elim (resolve_ledger_index (get "ledger_index" req.fields) (latest_ledger db.read)) [
          | none ↦ plain (invalid_params "'ledger_index' must be a ledger number or \"validated\"")
          | some ledger ↦ covered_answer db account hotwallets (i ∷ is) ledger
        ]

    unfoldable pub handle_gateway_balances : ReportDb → ApiRequest → Option MethodResult
    unfolding parse_hotwallets iou_issuances_of resolve_ledger_index covered_answer
    handle_gateway_balances db req = elim (truthy (get_string "account" req.fields)) [
      | none ↦ plain (invalid_params "'account' is required")
      | some account ↦ elim (parse_hotwallets (get "hotwallet" req.fields)) [
        | none ↦
            plain (invalid_params "'hotwallet' must be an account address or an array of addresses")
        | some hotwallets ↦ for_issuances db req account hotwallets (iou_issuances_of db account)
      ]
    ]
