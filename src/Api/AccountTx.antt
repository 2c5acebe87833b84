-- ===== src/Api/AccountTx.antt =====
-- src/api/methods/accountTx.ts: the archive's `account_tx`. The decoding of a blob and the two
-- conversions between numbers and texts are arguments; a number that JavaScript's `Number` makes
-- of a text is `none` unless it is a whole number from 0 on.
pub mod Order
pub mod Marker
pub mod Cut
pub mod Paging
use xrpl_registrar.Common.{
  ℕ, suc, min, max, String, Bool, true, false, ◌&&◌, ◌||◌, Option, none, some, List, ◌∷◌, map, ltb,
  leb, ◌==◌, if◌then◌else◌, or_else, length, take, last, keep_if, [],
}
use xrpl_registrar.Common.Int.{ℤ, pos, negsuc}
use xrpl_registrar.Common.Sort.{sort}
use xrpl_registrar.Common.SplitText.{split_at}
use xrpl_registrar.Common.Text.{eq, lt, template}
use xrpl_registrar.Api.Responses.{
  Warning, ApiRequest, MethodResult, invalid_params, not_in_archive, set,
}
use xrpl_registrar.Api.Scope.{
  ReadDb, LedgerSpan, in_scope, account_coverage, account_rows, account_data_range, latest_ledger,
  summarize, to_items,
}
use xrpl_registrar.Xrpl.Hex.{bytes_to_hex}
use xrpl_registrar.Db.Transactions.{TransactionRow}
use xrpl_registrar.Json.{
  Value, Fields, end, field, boolean, number, string, array, object, null, get, get_string,
  and_then, truthy,
}

abbrev pub default_limit : ℕ
default_limit = 200

abbrev pub max_limit : ℕ
max_limit = 400

unfoldable pub as_number : Option Value → Option ℤ
as_number (some (number n)) = some n
as_number _ = none

unfoldable pub clamp_limit : Option Value → ℕ
unfolding as_number
clamp_limit value = elim (as_number value) [
  | none ↦ default_limit
  | some n ↦ elim n [ pos k ↦ max 1 (min max_limit k) | negsuc k ↦ 1 ]
]

pub record Cursor : Type 0 where
  pub ledger : ℕ
  pub hash : String

-- `[marker.slice(0, idx), marker.slice(idx + 1)]` for the first colon.
abbrev pub split_colon : String → Option (String × String)
split_colon marker = split_at b':' marker

abbrev cursor_of : Option ℕ → String → Option Cursor
cursor_of none hash = none
cursor_of (some ledger) hash =
    if eq hash "" then none else some (record { ledger = ledger; hash = hash })

-- The interval that is queried; an open end is MAX_SAFE_INTEGER.
abbrev pub max_safe_integer : ℕ
max_safe_integer = 9007199254740991

abbrev pub cov_lo : Option LedgerSpan → ℕ
cov_lo none = 0
cov_lo (some s) = s.lo

abbrev pub cov_hi : Option LedgerSpan → ℕ
cov_hi none = max_safe_integer
cov_hi (some s) = s.hi

unfoldable pub query_min : Option ℤ → Option LedgerSpan → ℕ
query_min (some (pos n)) coverage = max n (cov_lo coverage)
query_min _ coverage = cov_lo coverage

unfoldable pub query_max : Option ℤ → Option LedgerSpan → ℕ
query_max (some (pos n)) coverage = min n (cov_hi coverage)
query_max _ coverage = cov_hi coverage

-- `(a.ledger_index, a.hash) < (b.ledger_index, b.hash)`
unfoldable pub key_less : Cursor → Cursor → Bool
key_less a b = ltb a.ledger b.ledger || (a.ledger == b.ledger && lt a.hash b.hash)

abbrev pub key_of : TransactionRow → Cursor
key_of r = record { ledger = r.ledger_index; hash = r.hash }

-- The order of the answer: `ORDER BY t.ledger_index ASC, t.hash ASC`, or both `DESC`.
unfoldable pub comes_before : Bool → Cursor → Cursor → Bool
unfolding key_less
comes_before ascending a b = if ascending then key_less a b else key_less b a

abbrev pub row_before : Bool → TransactionRow → TransactionRow → Bool
row_before ascending a b = comes_before ascending (key_of a) (key_of b)

-- The keyset condition: strictly past the cursor.
unfoldable pub past : Bool → Option Cursor → TransactionRow → Bool
past ascending none r = true
past ascending (some c) r = comes_before ascending c (key_of r)

unfoldable pub select_rows :
    ReadDb → String → ℕ → ℕ → Bool → Option Cursor → ℕ → List TransactionRow
unfolding past
select_rows db account lo hi ascending cursor count = take count (
    sort (row_before ascending) (
      keep_if (past ascending cursor)
        (keep_if (λ t. leb lo t.ledger_index && leb t.ledger_index hi) (account_rows db account))))

-- The page of an answer, and the row that its marker names.
unfoldable pub page_of : ℕ → List TransactionRow → List TransactionRow × Option TransactionRow
page_of limit rows =
    if ltb limit (length rows) then (take limit rows, last (take limit rows)) else (rows, none)

unfoldable pub range_beyond_coverage_warning : Option ℤ → Option ℤ → Option LedgerSpan → Warning
range_beyond_coverage_warning min max coverage = record {
  id = 65003;
  message =
      "The requested ledger range exceeds this account's guaranteed-complete coverage; results outside coverage may be incomplete.";
  details = some (
      object (
        field "requested" (object (unless_undefined "min" min (unless_undefined "max" max end)))
          (field "coverage" (coverage_value coverage) end)));
}
  where
    unless_undefined : String → Option ℤ → Fields → Fields
    unless_undefined key none rest = rest
    unless_undefined key (some n) rest = field key (number n) rest

    coverage_value : Option LedgerSpan → Value
    coverage_value none = null
    coverage_value (some s) =
        object (field "fromLedger" (number (pos s.lo)) (field "toLedger" (number (pos s.hi)) end))

-- `belowCoverage || aboveCoverage || !coverage`
unfoldable pub exceeds_coverage : Option ℤ → Option ℤ → Option LedgerSpan → Bool
exceeds_coverage min max none = true
exceeds_coverage min max (some s) = below min || above max
  where
    below : Option ℤ → Bool
    below (some (pos n)) = ltb n s.lo
    below _ = false

    above : Option ℤ → Bool
    above (some (pos n)) = ltb s.hi n
    above _ = false

-- The range that is reported.
unfoldable pub reported_range : ReadDb → String → LedgerSpan
reported_range db account = or_else (account_coverage db account) (
    or_else (account_data_range db account)
      (record { lo = latest_ledger db; hi = latest_ledger db }))

-- `value === true`
abbrev pub is_true : Option Value → Bool
is_true (some (boolean b)) = b
is_true _ = false

-- What a request asks for, with the coverage applied.
pub record TxQuery : Type 0 where
  pub account : String
  pub lo : ℕ
  pub hi : ℕ
  pub ascending : Bool
  pub limit : ℕ

unfoldable pub query_of : ReadDb → String → Fields → TxQuery
query_of db account fields =
    let coverage = account_coverage db account in
    record {
      account = account;
      lo = query_min (as_number (get "ledger_index_min" fields)) coverage;
      hi = query_max (as_number (get "ledger_index_max" fields)) coverage;
      ascending = is_true (get "forward" fields);
      limit = clamp_limit (get "limit" fields);
    }

module _ (print : ℕ → String) (to_number : String → Option ℕ) (decode : String → Value) where
  unfoldable pub parse_marker : Option Value → Option Cursor
  parse_marker (some (string marker)) = elim (split_colon marker) [
    | none ↦ none
    | some (ledger, hash) ↦ cursor_of (to_number ledger) hash
  ]
  parse_marker _ = none

  unfoldable pub print_marker : TransactionRow → String
  print_marker r = template (print r.ledger_index ∷ ":" ∷ r.hash ∷ [])

  abbrev printed : Option TransactionRow → Option String
  printed none = none
  printed (some r) = some (print_marker r)

  -- The rows of one page and the marker that goes with it.
  unfoldable pub select_page : ReadDb → TxQuery → Option Value → List TransactionRow × Option String
  unfolding select_rows page_of
  select_page db q marker =
      let (page, end_row) =
        page_of q.limit
          (select_rows db q.account q.lo q.hi q.ascending (parse_marker marker) (suc q.limit)) in
      (page, printed end_row)

  unfoldable pub binary_entry : TransactionRow → Value
  binary_entry r = object (
      field "tx_blob" (string (bytes_to_hex r.tx_blob)) (
        field "meta_blob" (string (bytes_to_hex r.meta_blob)) (
          field "ledger_index" (number (pos r.ledger_index))
            (field "validated" (boolean true) end))))

  unfoldable pub json_entry : TransactionRow → Value
  json_entry r = object (
      field "tx_json" (decode (bytes_to_hex r.tx_blob)) (
        field "meta" (decode (bytes_to_hex r.meta_blob)) (
          field "hash" (string r.hash) (
            field "ledger_index" (number (pos r.ledger_index))
              (field "validated" (boolean true) end)))))

  abbrev with_marker : Option String → Fields
  with_marker none = end
  with_marker (some m) = field "marker" (string m) end

  unfoldable pub answer_page : ReadDb → String → Fields → MethodResult
  unfolding query_of select_page binary_entry json_entry reported_range exceeds_coverage
      range_beyond_coverage_warning
  answer_page db account fields =
      let q = query_of db account fields in
      let (page, marker) = select_page db q (get "marker" fields) in
      let entry = (if is_true (get "binary" fields) then binary_entry else json_entry) in
      let span = reported_range db account in
      let coverage = account_coverage db account in
      let req_min = as_number (get "ledger_index_min" fields) in
      let req_max = as_number (get "ledger_index_max" fields) in
      record {
        result = field "status" (string "success") (
            field "account" (string account) (
              field "ledger_index_min" (number (pos span.lo)) (
                field "ledger_index_max" (number (pos span.hi)) (
                  field "limit" (number (pos q.limit)) (
                    field "transactions" (array (to_items (map entry page)))
                      (field "validated" (boolean true) (with_marker marker)))))));
        extra_warnings =
            if exceeds_coverage req_min req_max coverage
            then range_beyond_coverage_warning req_min req_max coverage ∷ []
            else [];
      }

  unfoldable pub handle_account_tx : ReadDb → ApiRequest → MethodResult
  unfolding answer_page
  handle_account_tx db req = elim (truthy (get_string "account" req.fields)) [
    | none ↦ record { result = invalid_params "'account' is required"; extra_warnings = [] }
    | some account ↦ if in_scope db account then answer_page db account req.fields else record {
      result = not_in_archive (template ("Account " ∷ account ∷ [])) (summarize db);
      extra_warnings = [];
    }
  ]
