-- ===== src/Api/Reporting.antt =====
-- src/api/methods/reporting.ts: `archive_balance_at` and `archive_transactions`. The numeric sum of
-- SQL is a parameter, and so are the resolver of times and the printing of numbers in errors.
pub mod Agreement
use xrpl_registrar.Common.{
  ℕ, ◌+◌, ◌-◌, ◌*◌, String, Bool, true, false, not, ◌&&◌, ◌||◌, Option, none, some, List, [], ◌∷◌,
  ◌++◌, map, ltb, leb, ◌==◌, if◌then◌else◌, or_else, keep_if,
}
use xrpl_registrar.Common.BigInt.{codes}
use xrpl_registrar.Common.Int.{ℤ, pos, negsuc}
use xrpl_registrar.Common.Sort.{sort, find}
use xrpl_registrar.Common.Text.{eq, lt, template, one_of}
use xrpl_registrar.Api.AccountTx.{range_beyond_coverage_warning}
use xrpl_registrar.Api.Responses.{Warning, ApiRequest, MethodResult, invalid_params, not_in_archive}
use xrpl_registrar.Api.Scope.{
  ReadDb, LedgerSpan, account_coverage, greatest_of, summarize, to_items,
}
use xrpl_registrar.Db.Issuances.{IssuanceKind, IssuanceRecord, mpt, iou}
use xrpl_registrar.Db.Transactions.{TransactionRow}
use xrpl_registrar.Discovery.Earliest.{Membership}
use xrpl_registrar.Json.{
  Value, Fields, end, field, null, boolean, number, string, array, object, get, get_string, truthy,
}
use xrpl_registrar.Reconcile.BalanceDeltas.{StoredDelta}
use xrpl_registrar.Xrpl.Currency.{currency_to_string}

-- The tables that reporting queries.
pub record ReportDb : Type 0 where
  pub read : ReadDb
  pub account_issuance : List Membership
  pub balance_deltas : List StoredDelta

pub record ResolvedIssuance : Type 0 where
  pub id : ℕ
  pub kind : IssuanceKind
  pub mpt_issuance_id : Option String
  pub currency : Option String
  pub issuer : Option String

unfoldable pub to_issuance : IssuanceRecord → ResolvedIssuance
to_issuance r = record {
  id = r.id;
  kind = r.kind;
  mpt_issuance_id = r.mpt_issuance_id;
  currency = r.currency;
  issuer = r.issuer_account;
}

abbrev nullable : Option String → Value
nullable none = null
nullable (some s) = string s

-- `...issuanceIdentity(issuance)`
unfoldable pub issuance_identity : ResolvedIssuance → Fields → Fields
issuance_identity iss rest = elim iss.kind [
  | mpt ↦ field "mpt_issuance_id" (nullable iss.mpt_issuance_id) rest
  | iou ↦ field "currency" (nullable iss.currency) (field "issuer" (nullable iss.issuer) rest)
]

unfoldable pub as_num : Option Value → Option ℤ
as_num (some (number n)) = some n
as_num _ = none

-- `/^\d+$/`, and `Number` of such a text.
is_digits : List ℕ → Bool
is_digits [] = true
is_digits (c ∷ cs) = leb b'0' c && leb c b'9' && is_digits cs

decimal : ℕ → List ℕ → ℕ
decimal acc [] = acc
decimal acc (c ∷ cs) = decimal (acc * 10 + (c - b'0')) cs

unfoldable pub as_issuance_id : Option Value → Option ℕ
unfolding is_digits decimal
as_issuance_id (some (number (pos n))) = if ltb 0 n then some n else none
as_issuance_id (some (string s)) =
    if not (eq s "") && is_digits (codes s) then some (decimal 0 (codes s)) else none
as_issuance_id _ = none

abbrev resolved : Option IssuanceRecord → Option ResolvedIssuance
resolved none = none
resolved (some r) = some (to_issuance r)

abbrev is_of : Option String → String → Bool
is_of none t = false
is_of (some s) t = eq s t

abbrev is_iou_of : String → String → IssuanceRecord → Bool
is_iou_of currency issuer r =
    elim r.kind [ mpt ↦ false | iou ↦ true ]
    && is_of r.currency currency
    && is_of r.issuer_account issuer

-- The issuance named by currency and issuer, where both are there.
abbrev by_currency : Option String → Option String → List IssuanceRecord → Option ResolvedIssuance
by_currency (some currency) (some issuer) rows =
    resolved (find (is_iou_of (currency_to_string currency) issuer) rows)
by_currency _ _ rows = none

unfoldable pub resolve_issuance : ReportDb → Fields → Option ResolvedIssuance
unfolding as_issuance_id to_issuance
resolve_issuance db fields =
    let rows = db.read.issuances.rows in
    elim (as_issuance_id (get "issuance_id" fields)) [
      | some id ↦ resolved (find (λ r. r.id == id) rows)
      | none ↦ elim (truthy (get_string "mpt_issuance_id" fields)) [
        | some id ↦ resolved (find (λ r. is_of r.mpt_issuance_id id) rows)
        | none ↦
            by_currency (truthy (get_string "currency" fields))
              (truthy (get_string "issuer" fields)) rows
      ]
    ]

unfoldable pub archive_latest_ledger : ReportDb → Option ℕ
archive_latest_ledger db = greatest_of (map (λ t. t.ledger_index) db.read.archive.transactions)

pub data Resolution : Type 0 where
  at : (ledger : ℤ) → Resolution
  refused : (error : String) → Resolution

abbrev latest_or_refused : Option ℕ → Resolution
latest_or_refused (some l) = at (pos l)
latest_or_refused none = refused "the archive holds no transactions yet"

abbrev found_at : String → Option ℕ → Resolution
found_at time (some l) = at (pos l)
found_at time none = refused (template ("no ledger recorded at or before " ∷ time ∷ []))

abbrev by_default : String → String → Option ℕ → Resolution
by_default ledger_key time_key (some l) = at (pos l)
by_default ledger_key time_key none = refused (
    template (
      "'" ∷ ledger_key ∷ "' (a number or \"validated\") or '" ∷ time_key
      ∷ "' (ISO timestamp) is required" ∷ []))

-- `raw === "validated" || raw === "current" || raw === "latest"`
abbrev names_latest : Option Value → Bool
names_latest (some (string s)) = one_of s ("validated" ∷ "current" ∷ "latest" ∷ [])
names_latest _ = false

unfoldable pub in_issuance_scope : ReportDb → ℕ → String → Bool
in_issuance_scope db issuance_id address = holds db.account_issuance
  where
    holds : List Membership → Bool
    holds [] = false
    holds (m ∷ ms) = (m.issuance_id == issuance_id && eq m.address address) || holds ms

-- A row of `balance_deltas bd JOIN transactions t ON t.hash = bd.hash`.
pub record Entry : Type 0 where
  pub issuance_id : ℕ
  pub address : String
  pub delta : String
  pub ledger : ℕ
  pub hash : String

abbrev entry_of : StoredDelta → TransactionRow → Entry
entry_of d t = record {
  issuance_id = d.issuance_id;
  address = d.row.address;
  delta = d.row.delta;
  ledger = t.ledger_index;
  hash = d.row.hash;
}

unfoldable pub joined_entries : List StoredDelta → List TransactionRow → List Entry
joined_entries [] ts = []
joined_entries (d ∷ ds) ts =
    map (entry_of d) (keep_if (λ t. eq t.hash d.row.hash) ts) ++ joined_entries ds ts

abbrev at_most : ℤ → ℕ → Bool
at_most (pos n) ledger = leb ledger n
at_most (negsuc n) ledger = false

abbrev at_least : ℤ → ℕ → Bool
at_least (pos n) ledger = leb n ledger
at_least (negsuc n) ledger = true

-- `WHERE bd.issuance_id = $1 AND bd.address = $2 AND t.ledger_index <= $3`
unfoldable pub entries_until : ReportDb → ℕ → String → ℤ → List Entry
unfolding joined_entries
entries_until db issuance_id account ledger =
    keep_if (λ e. e.issuance_id == issuance_id && eq e.address account && at_most ledger e.ledger)
      (joined_entries db.balance_deltas db.read.archive.transactions)

-- `accountFilter`
abbrev pub of_account : Option String → Entry → Bool
of_account none e = true
of_account (some account) e = eq e.address account

-- `ORDER BY t.ledger_index, bd.address`
abbrev pub entry_less : Entry → Entry → Bool
entry_less a b = ltb a.ledger b.ledger || (a.ledger == b.ledger && lt a.address b.address)

unfoldable pub listed_entries : ReportDb → ℕ → ℤ → ℤ → Option String → List Entry
unfolding joined_entries
listed_entries db issuance_id from to account = sort entry_less (
    keep_if
      (λ e.
        e.issuance_id == issuance_id
        && (at_least from e.ledger && at_most to e.ledger)
        && of_account account e)
      (joined_entries db.balance_deltas db.read.archive.transactions))

unfoldable pub entry_value : Entry → Value
entry_value e = object (
    field "account" (string e.address) (
      field "delta" (string e.delta)
        (field "ledger" (number (pos e.ledger)) (field "hash" (string e.hash) end))))

pub record Range : Type 0 where
  pub issuance : ResolvedIssuance
  pub from_ledger : ℤ
  pub to_ledger : ℤ
  pub account : Option String

pub data RangeResult : Type 0 where
  failure : (result : Fields) → RangeResult
  range : (r : Range) → RangeResult

abbrev plain : Fields → MethodResult
plain result = record { result = result; extra_warnings = [] }

abbrev beyond : ℤ → Option LedgerSpan → List Warning
beyond ledger none = []
beyond ledger (some span) =
    if at_most (pos span.hi) (above ledger)
    then []
    else range_beyond_coverage_warning none (some ledger) (some span) ∷ []
  where
    above : ℤ → ℕ
    above (pos n) = n
    above (negsuc n) = 0

unfoldable pub transactions_answer : ReportDb → Range → Fields
unfolding issuance_identity listed_entries entry_value
transactions_answer db r = field "status" (string "success") (
    issuance_identity r.issuance (
      field "from_ledger" (number r.from_ledger) (
        field "to_ledger" (number r.to_ledger) (
          field "transactions"
            (array (
              to_items (
                map entry_value
                  (listed_entries db r.issuance.id r.from_ledger r.to_ledger r.account))))
            (field "validated" (boolean true) end)))))

module _ (sum : List String → String) where
  -- `rows[0]?.bal ?? "0"`: SQL's sum is NULL of no row.
  unfoldable pub balance_of : List String → String
  balance_of [] = "0"
  balance_of (d ∷ ds) = sum (d ∷ ds)

  unfoldable pub balance_answer : ReportDb → ResolvedIssuance → String → ℤ → MethodResult
  unfolding entries_until issuance_identity balance_of
  balance_answer db issuance account ledger = record {
    result = field "status" (string "success") (
        issuance_identity issuance (
          field "account" (string account) (
            field "ledger_index" (number ledger) (
              field "balance"
                (string
                  (balance_of (map (λ e. e.delta) (entries_until db issuance.id account ledger))))
                (field "validated" (boolean true) end)))));
    extra_warnings = beyond ledger (account_coverage db.read account);
  }

module _ (resolve_time : String → Option ℕ) where
  unfoldable pub resolve_ledger : ReportDb → Fields → String → String → Option ℕ → Resolution
  unfolding as_num archive_latest_ledger
  resolve_ledger db fields ledger_key time_key fallback =
      let raw = get ledger_key fields in
      if names_latest raw then latest_or_refused (archive_latest_ledger db) else elim (as_num raw) [
        | some explicit ↦ at explicit
        | none ↦ elim (truthy (get_string time_key fields)) [
          | some time ↦ found_at time (resolve_time time)
          | none ↦ by_default ledger_key time_key fallback
        ]
      ]

  unfoldable pub resolve_range : ReportDb → Fields → RangeResult
  resolve_range db fields = elim (resolve_issuance db fields) [
    | none ↦ failure (not_in_archive "Issuance" (summarize db.read))
    | some issuance ↦ elim (resolve_ledger db fields "from_ledger" "from_time" (some 0)) [
      | refused error ↦ failure (invalid_params error)
      | at from ↦
          elim (resolve_ledger db fields "to_ledger" "to_time"
            (some (or_else (archive_latest_ledger db) 0))) [
              | refused error ↦ failure (invalid_params error)
              | at to ↦ range (record {
                issuance = issuance;
                from_ledger = from;
                to_ledger = to;
                account = truthy (get_string "account" fields);
              })
            ]
    ]
  ]

  unfoldable pub handle_transactions : ReportDb → ApiRequest → MethodResult
  handle_transactions db req = elim (resolve_range db req.fields) [
    | failure result ↦ plain result
    | range r ↦ plain (transactions_answer db r)
  ]

  unfoldable pub handle_balance_at : (List String → String) → ReportDb → ApiRequest → MethodResult
  handle_balance_at sum db req = elim (resolve_issuance db req.fields) [
    | none ↦ plain (not_in_archive "Issuance" (summarize db.read))
    | some issuance ↦ elim (truthy (get_string "account" req.fields)) [
      | none ↦ plain (invalid_params "'account' is required")
      | some account ↦ elim (resolve_ledger db req.fields "ledger_index" "date" none) [
        | refused error ↦ plain (invalid_params error)
        | at ledger ↦
            if in_issuance_scope db issuance.id account
            then balance_answer sum db issuance account ledger
            else plain (not_in_archive (template ("Account " ∷ account ∷ [])) (summarize db.read))
      ]
    ]
  ]
