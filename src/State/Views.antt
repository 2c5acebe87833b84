-- ===== src/State/Views.antt =====
-- src/api/state/reconstruct.ts and src/api/state/decode.ts: the account, the holders and the trust
-- lines that are read off the reconstructed objects. `to_number` is JavaScript's `Number` on a text
-- that is not blank, `none` where the result is not finite.
use Prim.Native.Char.{code}
use Prim.Native.String.{◌++◌ as ◌++ˢ◌}
use xrpl_registrar.Common.{
  ℕ, String, Bool, not, ◌&&◌, ◌||◌, Option, none, some, List, [], ◌∷◌, map, ◌==◌, if◌then◌else◌,
  or_else, keep_if,
}
use xrpl_registrar.Common.Int.{ℤ, pos}
use xrpl_registrar.Common.Sort.{sort, find}
use xrpl_registrar.Common.Text.{eq, lt}
use xrpl_registrar.Db.Transactions.{TransactionRow}
use xrpl_registrar.Json.{
  Value, Record, number, string, get, and_then, as_record, get_record, get_string, is_text, truthy,
}
use xrpl_registrar.Reconcile.Iou.{amount_issuer}
use xrpl_registrar.State.Reconstruct.{MetaEntry, ObjectState, latest_objects}
use xrpl_registrar.Xrpl.Hex.{bytes_to_hex}

-- An index is not negative; one that is would be read as 0 here.
abbrev index_of : Option Value → ℕ
index_of (some (number (pos n))) = n
index_of _ = 0

unfoldable pub transaction_index : Record → ℕ
transaction_index meta = index_of (get "TransactionIndex" meta)

module _ (decode : String → Value) where
  unfoldable pub decode_meta_entries : List TransactionRow → List MetaEntry
  unfolding transaction_index
  decode_meta_entries [] = []
  decode_meta_entries (row ∷ rows) =
      let rest = decode_meta_entries rows in
      elim (as_record (decode (bytes_to_hex row.meta_blob))) [
        | none ↦ rest
        | some meta ↦
            record {
              ledger_index = row.ledger_index;
              transaction_index = transaction_index meta;
              meta = meta;
            }
            ∷ rest
      ]

unfoldable pub is_account_root : String → String → Record → Bool
is_account_root account type fields =
    eq type "AccountRoot" && is_text (get_string "Account" fields) account

abbrev fields_of : Option ObjectState → Option Record
fields_of none = none
fields_of (some o) = some o.fields

unfoldable pub to_account_data : List MetaEntry → String → Option Record
unfolding is_account_root
to_account_data entries account =
    fields_of (find (λ o. not o.is_deleted) (latest_objects (is_account_root account) entries))

pub record MptHolder : Type 0 where
  pub account : String
  pub mpt_amount : String
  pub flags : ℤ
  pub mptoken_index : String

unfoldable pub is_token_of : String → String → Record → Bool
is_token_of mpt_issuance_id type fields =
    eq type "MPToken" && is_text (get_string "MPTokenIssuanceID" fields) mpt_issuance_id

module _ (to_number : String → Option ℤ) where
  unfoldable pub num : Option Value → Option ℤ
  num (some (number n)) = some n
  num (some (string s)) = to_number s
  num _ = none

  -- One round of the loop: a deleted object or one without an account is passed over.
  unfoldable pub mpt_holder : ObjectState → Option MptHolder
  unfolding num
  mpt_holder o = if o.is_deleted then none else elim (truthy (get_string "Account" o.fields)) [
    | none ↦ none
    | some account ↦ some (record {
      account = account;
      mpt_amount = or_else (get_string "MPTAmount" o.fields) "0";
      flags = or_else (num (get "Flags" o.fields)) (pos 0);
      mptoken_index = o.object_id;
    })
  ]

  unfoldable pub mpt_holders_of : List ObjectState → List MptHolder
  unfolding mpt_holder
  mpt_holders_of [] = []
  mpt_holders_of (o ∷ os) = elim (mpt_holder o) [
    | none ↦ mpt_holders_of os
    | some h ↦ h ∷ mpt_holders_of os
  ]

  unfoldable pub to_mpt_holders : List MetaEntry → String → List MptHolder
  unfolding mpt_holders_of is_token_of
  to_mpt_holders entries mpt_issuance_id =
      sort (λ a b. lt a.account b.account)
        (mpt_holders_of (latest_objects (is_token_of mpt_issuance_id) entries))

pub record AccountLine : Type 0 where
  pub account : String
  pub currency : String
  pub balance : String
  pub limit : String
  pub limit_peer : String

unfoldable pub amount_value : Option Value → String
amount_value v = or_else (and_then (and_then v as_record) (get_string "value")) "0"

abbrev minus_of : String → String
minus_of String.[] = "-"
minus_of (String.◌∷◌ c s) = if code c == b'-' then s else "-" ++ˢ String.◌∷◌ c s

unfoldable pub negate_text : String → String
negate_text value = if eq value "0" then "0" else minus_of value

unfoldable pub is_line_of : String → String → Record → Bool
is_line_of account type fields =
    eq type "RippleState"
    && (is_text (amount_issuer (get "HighLimit" fields)) account
        || is_text (amount_issuer (get "LowLimit" fields)) account)

-- The line from the account's side.
unfoldable pub account_line : String → Record → AccountLine
unfolding amount_value negate_text
account_line account fields =
    let low = get "LowLimit" fields in
    let high = get "HighLimit" fields in
    let is_low = is_text (amount_issuer low) account in
    let raw_balance = amount_value (get "Balance" fields) in
    record {
      account = or_else (if is_low then amount_issuer high else amount_issuer low) "";
      currency = or_else (and_then (get_record "Balance" fields) (get_string "currency")) "";
      balance = (if is_low then raw_balance else negate_text raw_balance);
      limit = amount_value (if is_low then low else high);
      limit_peer = amount_value (if is_low then high else low);
    }

unfoldable pub to_account_lines : List MetaEntry → String → List AccountLine
unfolding is_line_of account_line
to_account_lines entries account =
    sort (λ a b. lt a.account b.account)
      (map (λ o. account_line account o.fields)
        (keep_if (λ o. not o.is_deleted) (latest_objects (is_line_of account) entries)))
