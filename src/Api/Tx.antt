-- ===== src/Api/Tx.antt =====
-- src/api/methods/tx.ts: the archive's `tx`.
use xrpl_registrar.Common.{String, Bool, true, false, Option, none, some, [], ◌∷◌}
use xrpl_registrar.Common.Int.{pos}
use xrpl_registrar.Common.Sort.{find}
use xrpl_registrar.Common.Text.{eq, template}
use xrpl_registrar.Api.AccountTx.{is_true}
use xrpl_registrar.Api.Responses.{ApiRequest, MethodResult, invalid_params, not_in_archive}
use xrpl_registrar.Api.Scope.{ReadDb, summarize}
use xrpl_registrar.Db.Transactions.{TransactionRow}
use xrpl_registrar.Json.{
  Value, Fields, end, field, boolean, number, string, get, get_string, or_other, truthy,
}
use xrpl_registrar.Xrpl.Hex.{bytes_to_hex}

-- `transaction`, if it is a text, or else `tx_hash`; an empty text is refused like none.
unfoldable pub requested_hash : Fields → Option String
requested_hash fields =
    truthy (or_other (get_string "transaction" fields) (get_string "tx_hash" fields))

module _ (decode : String → Value) where
  unfoldable pub blob_fields : Bool → TransactionRow → Fields → Fields
  blob_fields true r rest =
      field "tx_blob" (string (bytes_to_hex r.tx_blob))
        (field "meta_blob" (string (bytes_to_hex r.meta_blob)) rest)
  blob_fields false r rest =
      field "tx_json" (decode (bytes_to_hex r.tx_blob))
        (field "meta" (decode (bytes_to_hex r.meta_blob)) rest)

  unfoldable pub tx_result : Bool → TransactionRow → Fields
  unfolding blob_fields
  tx_result binary r = field "status" (string "success") (
      blob_fields binary r (
        field "hash" (string r.hash) (
          field "ledger_index" (number (pos r.ledger_index))
            (field "validated" (boolean true) end))))

  abbrev answer : Fields → MethodResult
  answer result = record { result = result; extra_warnings = [] }

  unfoldable pub handle_tx : ReadDb → ApiRequest → MethodResult
  unfolding requested_hash tx_result
  handle_tx db req = elim (requested_hash req.fields) [
    | none ↦ answer (invalid_params "'transaction' (a transaction hash) is required")
    | some hash ↦ elim (find (λ r. eq r.hash hash) db.archive.transactions) [
      | none ↦ answer (not_in_archive (template ("Transaction " ∷ hash ∷ [])) (summarize db))
      | some r ↦ answer (tx_result (is_true (get "binary" req.fields)) r)
    ]
  ]
