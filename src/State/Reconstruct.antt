-- ===== src/State/Reconstruct.antt =====
-- src/api/state/reconstruct.ts: the latest state of each ledger object, from metadata.
pub mod Latest
use xrpl_registrar.Common.{
  ℕ, String, Bool, true, false, ◌&&◌, ◌||◌, Option, none, some, List, [], ◌∷◌, map, ltb, ◌==◌,
  if◌then◌else◌, or_else,
}
use xrpl_registrar.Common.Dict.{Dict, lookup, insert}
use xrpl_registrar.Json.{Value, Record, Fields, and_then, get_string, truthy}
use xrpl_registrar.Meta.{
  Change, created, modified, deleted, affected_node, affected_nodes, after_fields,
}

pub record MetaEntry : Type 0 where
  pub ledger_index : ℕ
  pub transaction_index : ℕ
  pub meta : Record

pub record NodeInfo : Type 0 where
  pub entry_type : String
  pub object_id : String
  pub fields : Record
  pub is_deleted : Bool

pub record ObjectState : Type 0 where
  pub object_id : String
  pub entry_type : String
  pub fields : Record
  pub is_deleted : Bool
  pub ledger_index : ℕ
  pub transaction_index : ℕ

abbrev pub deletes : Change → Bool
deletes created = false
deletes modified = false
deletes deleted = true

-- One round of `extractNodes`.
unfoldable pub extract_node : Value → Option NodeInfo
extract_node raw = and_then (affected_node raw) λ n.
    and_then (truthy (get_string "LedgerEntryType" n.node)) λ entry_type.
      and_then (truthy (get_string "LedgerIndex" n.node)) λ object_id. some (record {
        entry_type = entry_type;
        object_id = object_id;
        fields = or_else (after_fields n.node) Fields.end;
        is_deleted = deletes n.change;
      })

abbrev pub push_some {ℓ} : {A : Type ℓ} → Option A → List A → List A
push_some none xs = xs
push_some (some x) xs = x ∷ xs

unfoldable pub extract_from : List Value → List NodeInfo
extract_from [] = []
extract_from (raw ∷ raws) = push_some (extract_node raw) (extract_from raws)

unfoldable pub extract_nodes : Record → List NodeInfo
unfolding extract_from
extract_nodes meta = extract_from (affected_nodes meta)

unfoldable pub to_state : MetaEntry → NodeInfo → ObjectState
to_state entry node = record {
  object_id = node.object_id;
  entry_type = node.entry_type;
  fields = node.fields;
  is_deleted = node.is_deleted;
  ledger_index = entry.ledger_index;
  transaction_index = entry.transaction_index;
}

-- By ledger, then by position in the ledger.
abbrev pub is_later : ℕ → ℕ → ObjectState → Bool
is_later l t prev =
    ltb prev.ledger_index l || (l == prev.ledger_index && ltb prev.transaction_index t)

unfoldable pub is_newer : MetaEntry → Option ObjectState → Bool
is_newer entry none = true
is_newer entry (some prev) = is_later entry.ledger_index entry.transaction_index prev

abbrev pub Predicate : Type 0
Predicate = String → Record → Bool

unfoldable pub touch : Predicate → MetaEntry → NodeInfo → Dict ObjectState → Dict ObjectState
unfolding to_state is_newer
touch predicate entry node by_id =
    if predicate node.entry_type node.fields
    then (if is_newer entry (lookup node.object_id by_id)
        then insert node.object_id (to_state entry node) by_id
        else by_id)
    else by_id

unfoldable pub touch_all :
    Predicate → MetaEntry → List NodeInfo → Dict ObjectState → Dict ObjectState
touch_all predicate entry [] by_id = by_id
touch_all predicate entry (node ∷ nodes) by_id =
    touch_all predicate entry nodes (touch predicate entry node by_id)

unfoldable pub latest_from : Predicate → List MetaEntry → Dict ObjectState → Dict ObjectState
latest_from predicate [] by_id = by_id
latest_from predicate (entry ∷ entries) by_id =
    latest_from predicate entries (touch_all predicate entry (extract_nodes entry.meta) by_id)

-- The map that `latestObjects` builds; it returns the values.
unfoldable pub latest_by_id : Predicate → List MetaEntry → Dict ObjectState
latest_by_id predicate entries = latest_from predicate entries []

unfoldable pub latest_objects : Predicate → List MetaEntry → List ObjectState
latest_objects predicate entries = map (λ e. e.1) (latest_by_id predicate entries)
