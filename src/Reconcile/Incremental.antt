-- ===== src/Reconcile/Incremental.antt =====
-- src/reconcile/incremental.ts: the deltas of one transaction as it lands, and the holders of the
-- tracked issuances that it touches. Decoding a blob is a parameter, which throws where it is
-- `none`, and so is the printing of a number.
use xrpl_registrar.Common.{
  ℕ, ◌+◌, String, ◌&&◌, Option, none, some, List, [], ◌∷◌, ◌++◌, map, if◌then◌else◌, or_else,
  length,
}
use xrpl_registrar.Common.Int.{ℤ}
use xrpl_registrar.Common.Text.{one_of, template}
use xrpl_registrar.Db.Issuances.{IssuanceKind, IssuanceRecord, mpt, iou}
use xrpl_registrar.Json.{Value, Record, and_then, as_record, get_string, is_text, truthy}
use xrpl_registrar.Meta.{affected_node, affected_nodes, after_fields}
use xrpl_registrar.Reconcile.BalanceDeltas.{DeltaRow, DeltaTables, insert_deltas_many}
use xrpl_registrar.Reconcile.Iou.{Decimals, HolderInfo, holder_info, iou_deltas}
use xrpl_registrar.Reconcile.MptDeltas.{mpt_deltas}
use xrpl_registrar.Xrpl.Hex.{bytes_to_hex}

pub record TrackedIssuance : Type 0 where
  pub id : ℕ
  pub kind : IssuanceKind
  pub mpt_issuance_id : Option String
  pub currency : Option String
  pub issuer : Option String

unfoldable pub tracked_issuance : IssuanceRecord → TrackedIssuance
tracked_issuance i = record {
  id = i.id;
  kind = i.kind;
  mpt_issuance_id = i.mpt_issuance_id;
  currency = i.currency;
  issuer = i.issuer_account;
}

module _ (decode : String → Option Value) where
  unfoldable pub decode_meta : List ℕ → Option Record
  decode_meta [] = none
  decode_meta (b ∷ bs) = and_then (decode (bytes_to_hex (b ∷ bs))) as_record

module _ {B : Type 0} (big : Decimals B) (print : ℤ → String) where
  -- The deltas of one issuance, as rows; `none` is an exception.
  unfoldable pub delta_rows : String → Record → TrackedIssuance → Option (List DeltaRow)
  delta_rows hash meta iss = elim iss.kind [
    | mpt ↦ some (
        map (λ d. record { hash = hash; address = d.account; delta = print d.delta })
          (mpt_deltas meta (or_else iss.mpt_issuance_id "")))
    | iou ↦ elim (iou_deltas big meta (or_else iss.currency "") (or_else iss.issuer "")) [
      | none ↦ none
      | some ds ↦ some (map (λ d. record { hash = hash; address = d.account; delta = d.delta }) ds)
    ]
  ]

  -- The tables and the number of rows written so far; an exception rolls the caller's transaction
  -- back.
  unfoldable pub derive_each :
      String → Record → List TrackedIssuance → DeltaTables × ℕ → Option (DeltaTables × ℕ)
  unfolding delta_rows
  derive_each hash meta [] s = some s
  derive_each hash meta (iss ∷ rest) (t, written) = elim (delta_rows hash meta iss) [
    | none ↦ none
    | some rows ↦
        derive_each hash meta rest (insert_deltas_many iss.id rows t, written + length rows)
  ]

  unfoldable pub derive_tx_deltas_from_meta :
      List TrackedIssuance → String → Option Record → DeltaTables → Option (DeltaTables × ℕ)
  unfolding derive_each
  derive_tx_deltas_from_meta issuances hash none t = some (t, 0)
  derive_tx_deltas_from_meta issuances hash (some meta) t = derive_each hash meta issuances (t, 0)

pub record DetectedHolder : Type 0 where
  pub issuance_id : ℕ
  pub holder : String

abbrev holder_of : Option HolderInfo → Option String
holder_of none = none
holder_of (some info) = some info.holder

-- The holder that a node names for one issuance.
unfoldable pub holder_at : Option String → Record → TrackedIssuance → Option String
holder_at type fields iss = elim iss.kind [
  | mpt ↦
      if is_text type "MPToken"
        && is_text (get_string "MPTokenIssuanceID" fields) (or_else iss.mpt_issuance_id "")
      then truthy (get_string "Account" fields)
      else none
  | iou ↦
      if is_text type "RippleState"
      then truthy (holder_of (holder_info fields (or_else iss.issuer "") (or_else iss.currency "")))
      else none
]

-- The entry type and the fields of a node; a node without fields is passed over.
unfoldable pub node_fields : Value → Option (Option String × Record)
node_fields raw =
    and_then (affected_node raw) λ n.
      and_then (after_fields n.node) λ fields. some (get_string "LedgerEntryType" n.node, fields)

-- `out` with the keys in `seen`.
pub record Detection : Type 0 where
  pub seen : List String
  pub out : List DetectedHolder

module _ (print : ℕ → String) where
  abbrev pub key_text : ℕ → String → String
  key_text id holder = template (print id ∷ "|" ∷ holder ∷ [])

  unfoldable pub detect : TrackedIssuance → Option String → Detection → Detection
  detect iss none d = d
  detect iss (some holder) d = if one_of (key_text iss.id holder) d.seen then d else record {
    seen = key_text iss.id holder ∷ d.seen;
    out = d.out ++ record { issuance_id = iss.id; holder = holder } ∷ [];
  }

  unfoldable pub detect_in : Option String → Record → List TrackedIssuance → Detection → Detection
  detect_in type fields [] d = d
  detect_in type fields (iss ∷ rest) d =
      detect_in type fields rest (detect iss (holder_at type fields iss) d)

  unfoldable pub detect_all : List TrackedIssuance → List Value → Detection → Detection
  detect_all issuances [] d = d
  detect_all issuances (raw ∷ raws) d = detect_all issuances raws (elim (node_fields raw) [
    | none ↦ d
    | some (type, fields) ↦ detect_in type fields issuances d
  ])

  unfoldable pub holders_in_meta : Record → List TrackedIssuance → List DetectedHolder
  unfolding detect_all
  holders_in_meta meta issuances =
      (detect_all issuances (affected_nodes meta) (record { seen = []; out = [] })).out
