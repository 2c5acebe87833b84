-- ===== src/Meta.antt =====
-- The affected nodes of a transaction's metadata, as mptDeltas.ts, iou.ts, incremental.ts and
-- reconstruct.ts read them.
use xrpl_registrar.Common.{Option, none, some, List, []}
use xrpl_registrar.Json.{Value, Record, get, as_record, as_array, and_then, or_other, get_record}

pub data Change : Type 0 where
  created modified deleted : Change

pub record Node : Type 0 where
  pub change : Change
  pub node : Record

abbrev tagged : Change → Option Record → Option Node
tagged c none = none
tagged c (some r) = some (record { change = c; node = r })

-- `created ?? modified ?? deletedNode`, with which of them it is.
unfoldable pub affected_node : Value → Option Node
affected_node raw = and_then (as_record raw) λ wrapper.
    or_other (tagged created (get_record "CreatedNode" wrapper)) (
      or_other (tagged modified (get_record "ModifiedNode" wrapper))
        (tagged deleted (get_record "DeletedNode" wrapper)))

-- `meta["AffectedNodes"]`, empty if it is no array.
unfoldable pub affected_nodes : Record → List Value
affected_nodes meta = elim (and_then (get "AffectedNodes" meta) as_array) [
  | none ↦ []
  | some vs ↦ vs
]

-- `asRecord(node["FinalFields"]) ?? asRecord(node["NewFields"])`
unfoldable pub after_fields : Record → Option Record
after_fields node = or_other (get_record "FinalFields" node) (get_record "NewFields" node)
