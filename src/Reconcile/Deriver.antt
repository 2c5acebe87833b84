-- ===== src/Reconcile/Deriver.antt =====
-- src/reconcile/deriver.ts: the deltas of an issuance derived again, from every archived transaction
-- that touches an account in scope. Decoding a blob is a parameter, which throws where it is `none`,
-- and so is the printing of a number.
pub mod Repeated
use xrpl_registrar.Common.{ℕ, String, Option, none, some, List, [], ◌∷◌, ◌++◌, map, length, keep_if}
use xrpl_registrar.Common.Int.{ℤ}
use xrpl_registrar.Api.MptHolders.{touches_member}
use xrpl_registrar.Db.Transactions.{Archive, TransactionRow}
use xrpl_registrar.Discovery.Earliest.{Membership}
use xrpl_registrar.Json.{Value, Record, as_record}
use xrpl_registrar.Reconcile.BalanceDeltas.{DeltaRow, DeltaTables, insert_deltas_many}
use xrpl_registrar.Reconcile.Iou.{Decimals, iou_deltas}
use xrpl_registrar.Reconcile.MptDeltas.{mpt_deltas}
use xrpl_registrar.Xrpl.Hex.{bytes_to_hex}

unfoldable pub in_scope_meta : Archive → List Membership → ℕ → List TransactionRow
unfolding touches_member
in_scope_meta archive members issuance_id =
    keep_if (λ t. touches_member archive.account_transactions t.hash issuance_id members)
      archive.transactions

module _ (decode : String → Option Value) (deltas : Record → Option (List (String × String))) where
  abbrev to_rows : String → List (String × String) → List DeltaRow
  to_rows hash = map (λ d. record { hash = hash; address = d.0; delta = d.1 })

  -- The rows of one transaction: none of metadata that is no object (`continue`).
  unfoldable pub derived_rows : TransactionRow → Option (List DeltaRow)
  derived_rows t = elim (decode (bytes_to_hex t.meta_blob)) [
    | none ↦ none
    | some value ↦ elim (as_record value) [
      | none ↦ some []
      | some meta ↦ elim (deltas meta) [ none ↦ none | some ds ↦ some (to_rows t.hash ds) ]
    ]
  ]

  abbrev append_rows : Option (List DeltaRow) → Option (List DeltaRow) → Option (List DeltaRow)
  append_rows (some xs) (some ys) = some (xs ++ ys)
  append_rows _ _ = none

  unfoldable pub all_rows : List TransactionRow → Option (List DeltaRow)
  unfolding derived_rows
  all_rows [] = some []
  all_rows (t ∷ ts) = append_rows (derived_rows t) (all_rows ts)

  abbrev written : ℕ → DeltaTables → Option (List DeltaRow) → Option (DeltaTables × ℕ)
  written issuance_id tables none = none
  written issuance_id tables (some rows) =
      some (insert_deltas_many issuance_id rows tables, length rows)

  -- What the two derivations share; `none` is an exception, which leaves the tables as they were.
  unfoldable pub derive : Archive → List Membership → ℕ → DeltaTables → Option (DeltaTables × ℕ)
  derive archive members issuance_id tables =
      written issuance_id tables (all_rows (in_scope_meta archive members issuance_id))

module _ (decode : String → Option Value) where
  unfoldable pub derive_mpt_deltas :
      (ℤ → String) → Archive → List Membership → ℕ → String → DeltaTables → Option (DeltaTables × ℕ)
  unfolding derive
  derive_mpt_deltas print archive members issuance_id mpt_issuance_id tables =
      derive decode
        (λ meta. some (map (λ d. (d.account, print d.delta)) (mpt_deltas meta mpt_issuance_id)))
        archive members issuance_id tables

  module _ {B : Type 0} (big : Decimals B) where
    abbrev pairs : String → String → Record → Option (List (String × String))
    pairs currency issuer meta = elim (iou_deltas big meta currency issuer) [
      | none ↦ none
      | some ds ↦ some (map (λ d. (d.account, d.delta)) ds)
    ]

    unfoldable pub derive_iou_deltas :
        Archive → List Membership → ℕ → String → String → DeltaTables → Option (DeltaTables × ℕ)
    unfolding derive
    derive_iou_deltas archive members issuance_id currency issuer tables =
        derive decode (pairs currency issuer) archive members issuance_id tables
