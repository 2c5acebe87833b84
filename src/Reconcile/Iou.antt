-- ===== src/Reconcile/Iou.antt =====
-- src/reconcile/iou.ts: the per-account balance changes of an IOU in one transaction, and the
-- balances of the reconstructed trust lines. Decimal numbers are Big's, a parameter: `parse` is
-- `new Big(text)`, which throws where it is `none`.
use xrpl_registrar.Common.{
  String, Bool, true, false, not, ◌&&◌, Option, none, some, List, [], ◌∷◌, if◌then◌else◌,
}
use xrpl_registrar.Common.Dict.{Dict, insert}
use xrpl_registrar.Common.Text.{eq}
use xrpl_registrar.Json.{Value, Record, get, and_then, as_record, get_record, get_string, is_text}
use xrpl_registrar.Meta.{
  Change, created, modified, deleted, affected_node, affected_nodes, after_fields,
}
use xrpl_registrar.State.Reconstruct.{MetaEntry, ObjectState, latest_objects}
use xrpl_registrar.Xrpl.Currency.{currency_to_string}

-- The operations of big.js that the source uses.
pub record Decimals (B : Type 0) : Type 0 where
  pub parse : String → Option B
  pub zero : B
  pub plus : B → B → B
  pub minus : B → B → B
  pub negate : B → B
  pub equal : B → B → Bool
  pub print : B → String

pub record IouDelta : Type 0 where
  pub account : String
  pub delta : String

-- `sign: 1 | -1`
pub data Sign : Type 0 where
  same opposite : Sign

pub record HolderInfo : Type 0 where
  pub holder : String
  pub sign : Sign

unfoldable pub amount_issuer : Option Value → Option String
amount_issuer value = and_then (and_then value as_record) (get_string "issuer")

unfoldable pub balance_value : Record → Option String
balance_value fields = and_then (get_record "Balance" fields) (get_string "value")

abbrev readable : Option String → Option String
readable none = none
readable (some c) = some (currency_to_string c)

unfoldable pub balance_currency : Record → Option String
balance_currency fields = readable (and_then (get_record "Balance" fields) (get_string "currency"))

-- The test of one side: that it is the issuer's, and who is on the other.
abbrev across : Option String → Option String → String → Sign → Option HolderInfo
across near (some far) issuer sign =
    if is_text near issuer then some (record { holder = far; sign = sign }) else none
across near none issuer sign = none

abbrev first_of {ℓ} : {A : Type ℓ} → Option A → Option A → Option A
first_of none b = b
first_of (some a) b = some a

unfoldable pub holder_info : Record → String → String → Option HolderInfo
unfolding amount_issuer balance_currency
holder_info fields issuer currency =
    if not (is_text (balance_currency fields) currency)
    then none
    else let low = amount_issuer (get "LowLimit" fields) in
      let high = amount_issuer (get "HighLimit" fields) in
      first_of (across low high issuer opposite) (across high low issuer same)

module _ {B : Type 0} (big : Decimals B) where
  abbrev signed : Sign → Option B → Option B
  signed sign none = none
  signed same (some b) = some b
  signed opposite (some b) = some (big.negate b)

  abbrev parsed : Option String → Option B
  parsed none = some big.zero
  parsed (some text) = big.parse text

  unfoldable pub holder_balance : Record → Sign → Option B
  unfolding balance_value
  holder_balance fields sign = signed sign (parsed (balance_value fields))

  -- What a node comes to: nothing (`continue`), or the balances before and after, where reading
  -- one may throw.
  pub data Movement : Type 0 where
    unmoved : Movement
    moved : (account : String) (before after : Option B) → Movement

  unfoldable pub movement : Change → Record → Record → HolderInfo → Movement
  unfolding holder_balance
  movement created node fields info =
      moved info.holder (some big.zero) (holder_balance fields info.sign)
  movement modified node fields info = elim (get_record "PreviousFields" node) [
    | none ↦ unmoved
    | some previous ↦ elim (get_record "Balance" previous) [
      | none ↦ unmoved
      | some b ↦
          moved info.holder (holder_balance previous info.sign) (holder_balance fields info.sign)
    ]
  ]
  movement deleted node fields info =
      moved info.holder (holder_balance fields info.sign) (some big.zero)

  -- The guards of the loop: each `continue` is `unmoved`.
  unfoldable pub node_movement : String → String → Value → Movement
  unfolding movement holder_info
  node_movement currency issuer raw = elim (affected_node raw) [
    | none ↦ unmoved
    | some n ↦
        if not (is_text (get_string "LedgerEntryType" n.node) "RippleState")
        then unmoved
        else elim (after_fields n.node) [
          | none ↦ unmoved
          | some fields ↦ elim (holder_info fields issuer currency) [
            | none ↦ unmoved
            | some info ↦ movement n.change n.node fields info
          ]
        ]
  ]

  -- `if (!delta.eq(0)) deltas.push(…)`
  unfoldable pub push_movement : Movement → Option (List IouDelta) → Option (List IouDelta)
  push_movement unmoved rest = rest
  push_movement (moved account (some before) (some after)) (some rest) =
      let delta = big.minus after before in
      some (
        if big.equal delta big.zero
        then rest
        else record { account = account; delta = big.print delta } ∷ rest)
  push_movement (moved account before after) rest = none

  unfoldable pub iou_deltas_of : String → String → List Value → Option (List IouDelta)
  iou_deltas_of currency issuer [] = some []
  iou_deltas_of currency issuer (raw ∷ raws) =
      push_movement (node_movement currency issuer raw) (iou_deltas_of currency issuer raws)

  -- `none` is the exception of a value that is no number.
  unfoldable pub iou_deltas : Record → String → String → Option (List IouDelta)
  unfolding node_movement push_movement iou_deltas_of
  iou_deltas meta currency issuer = iou_deltas_of currency issuer (affected_nodes meta)

  abbrev is_holder : Option HolderInfo → Bool
  is_holder none = false
  is_holder (some info) = true

  unfoldable pub is_line : String → String → String → Record → Bool
  is_line issuer currency type fields =
      eq type "RippleState" && is_holder (holder_info fields issuer currency)

  abbrev set_balance : String → Option B → Option (Dict B) → Option (Dict B)
  set_balance holder (some b) (some m) = some (insert holder b m)
  set_balance holder b m = none

  -- The loop over the objects.
  unfoldable pub line_balances :
      String → String → List ObjectState → Option (Dict B) → Option (Dict B)
  line_balances issuer currency [] m = m
  line_balances issuer currency (o ∷ os) m = line_balances issuer currency os (
      if o.is_deleted then m else elim (holder_info o.fields issuer currency) [
        | none ↦ m
        | some info ↦ set_balance info.holder (holder_balance o.fields info.sign) m
      ])

  unfoldable pub to_iou_balances : List MetaEntry → String → String → Option (Dict B)
  unfolding is_line line_balances
  to_iou_balances entries issuer currency =
      line_balances issuer currency (latest_objects (is_line issuer currency) entries) (some [])
