-- ===== src/Api/MptHolders.antt =====
-- src/api/methods/mptHolders.ts: the archive's `mpt_holders`.
use xrpl_registrar.Common.{
  ℕ, min, max, String, Bool, true, false, ◌&&◌, ◌||◌, Option, none, some, List, [], ◌∷◌, map, ltb,
  leb, ◌==◌, if◌then◌else◌, or_else, length, take, last, keep_if,
}
use xrpl_registrar.Common.Int.{ℤ, pos, negsuc}
use xrpl_registrar.Common.Sort.{sort, find}
use xrpl_registrar.Common.Text.{lt, template}
use xrpl_registrar.Api.AccountTx.{as_number, max_safe_integer}
use xrpl_registrar.Api.Responses.{ApiRequest, MethodResult, invalid_params, not_in_archive}
use xrpl_registrar.Api.Scope.{ReadDb, latest_ledger, summarize, to_items}
use xrpl_registrar.Db.Issuances.{IssuanceRecord}
use xrpl_registrar.Db.Transactions.{TransactionRow, seen_link}
use xrpl_registrar.Discovery.Earliest.{Membership}
use xrpl_registrar.Json.{
  Value, Fields, end, field, boolean, number, string, array, object, get, get_string, is_text,
  truthy,
}
use xrpl_registrar.State.Views.{MptHolder, decode_meta_entries, to_mpt_holders}

-- Some account of the issuance is linked to the transaction.
unfoldable pub touches_member : List (String × String) → String → ℕ → List Membership → Bool
touches_member links hash issuance_id [] = false
touches_member links hash issuance_id (m ∷ ms) =
    (m.issuance_id == issuance_id && seen_link (hash, m.address) links)
    || touches_member links hash issuance_id ms

abbrev up_to : ℤ → ℕ → Bool
up_to (pos n) ledger = leb ledger n
up_to (negsuc n) ledger = false

unfoldable pub issuance_rows : ReadDb → List Membership → ℕ → ℤ → List TransactionRow
unfolding touches_member
issuance_rows db members issuance_id limit =
    keep_if
      (λ t.
        touches_member db.archive.account_transactions t.hash issuance_id members
        && up_to limit t.ledger_index)
      db.archive.transactions

-- `Math.max(1, Math.min(400, …))`, 50 by default.
unfoldable pub holder_limit : Option Value → ℕ
holder_limit value = elim (or_else (as_number value) (pos 50)) [
  | pos n ↦ max 1 (min 400 n)
  | negsuc n ↦ 1
]

abbrev after_marker : Option String → List MptHolder → List MptHolder
after_marker none hs = hs
after_marker (some marker) hs = keep_if (λ h. lt marker h.mptoken_index) hs

abbrev index_of : Option MptHolder → Option String
index_of none = none
index_of (some h) = some h.mptoken_index

-- The page and its marker, from all holders.
unfoldable pub holder_page : List MptHolder → ℕ → Option String → List MptHolder × Option String
holder_page holders limit marker =
    let ordered = sort (λ a b. lt a.mptoken_index b.mptoken_index) holders in
    let after = after_marker marker ordered in
    let page = take limit after in
    (page, (if ltb limit (length after) then index_of (last page) else none))

abbrev holder_value : MptHolder → Value
holder_value h = object (
    field "account" (string h.account) (
      field "mpt_amount" (string h.mpt_amount)
        (field "flags" (number h.flags) (field "mptoken_index" (string h.mptoken_index) end))))

abbrev marker_field : Option String → Fields → Fields
marker_field none rest = rest
marker_field (some m) rest = field "marker" (string m) rest

module _ (decode : String → Value) (to_number : String → Option ℤ) where
  unfoldable pub holders_answer :
      ReadDb → List Membership → Fields → String → IssuanceRecord → MethodResult
  unfolding issuance_rows holder_limit holder_page
  holders_answer db members fields mpt_id issuance =
      let requested = as_number (get "ledger_index" fields) in
      let rows = issuance_rows db members issuance.id (or_else requested (pos max_safe_integer)) in
      let all = to_mpt_holders to_number (decode_meta_entries decode rows) mpt_id in
      let limit = holder_limit (get "limit" fields) in
      let (page, next_marker) = holder_page all limit (truthy (get_string "marker" fields)) in
      record {
        result = field "status" (string "success") (
            field "mpt_issuance_id" (string mpt_id) (
              field "ledger_index" (number (or_else requested (pos (latest_ledger db)))) (
                field "limit" (number (pos limit)) (
                  field "mptokens" (array (to_items (map holder_value page)))
                    (marker_field next_marker (field "validated" (boolean true) end))))));
        extra_warnings = [];
      }

  unfoldable pub handle_mpt_holders : ReadDb → List Membership → ApiRequest → MethodResult
  unfolding holders_answer
  handle_mpt_holders db members req = elim (truthy (get_string "mpt_issuance_id" req.fields)) [
    | none ↦ record { result = invalid_params "'mpt_issuance_id' is required"; extra_warnings = [] }
    | some mpt_id ↦ elim (find (λ i. is_text i.mpt_issuance_id mpt_id) db.issuances.rows) [
      | none ↦ record {
        result = not_in_archive (template ("MPT issuance " ∷ mpt_id ∷ [])) (summarize db);
        extra_warnings = [];
      }
      | some issuance ↦ holders_answer db members req.fields mpt_id issuance
    ]
  ]
