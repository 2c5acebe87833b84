-- ===== src/Json.antt =====
-- src/discovery/fields.ts: narrowing of untyped JSON (decoded metadata, requests, upstream
-- results). A number is an integer; the fractional numbers that JSON also allows are left out.
use xrpl_registrar.Common.{String, Bool, Option, none, some, if◌then◌else◌, List, [], ◌∷◌}
use xrpl_registrar.Common.Int.{ℤ}
use xrpl_registrar.Common.Text.{eq}

mutual
  -- An `unknown` that holds JSON.
  pub data Value : Type 0 where
    null : Value
    boolean : Bool → Value
    number : ℤ → Value
    string : String → Value
    array : Items → Value
    object : Fields → Value

  pub data Items : Type 0 where
    nil : Items
    item : Value → Items → Items

  pub data Fields : Type 0 where
    end : Fields
    field : String → Value → Fields → Fields

-- `Record<string, unknown>`
abbrev pub Record : Type 0
Record = Fields

abbrev pub items : Items → List Value
items nil = []
items (item v vs) = v ∷ items vs

-- `record[key]`; `none` is `undefined`.
unfoldable pub get : String → Fields → Option Value
get k end = none
get k (field j v fs) = if eq j k then some v else get k fs

unfoldable pub as_record : Value → Option Record
as_record (object fs) = some fs
as_record _ = none

unfoldable pub as_string : Value → Option String
as_string (string s) = some s
as_string _ = none

unfoldable pub as_array : Value → Option (List Value)
as_array (array vs) = some (items vs)
as_array _ = none

-- `f(value)` where `value` may be `undefined`, which narrows to `undefined`.
abbrev pub and_then {ℓ κ} : {A : Type ℓ} {B : Type κ} → Option A → (A → Option B) → Option B
and_then none f = none
and_then (some a) f = f a

-- `a ?? b`
abbrev pub or_other {ℓ} : {A : Type ℓ} → Option A → Option A → Option A
or_other none b = b
or_other (some a) b = some a

-- `asRecord(record[key])`
abbrev pub get_record : String → Record → Option Record
get_record k r = and_then (get k r) as_record

-- `asString(record[key])`
abbrev pub get_string : String → Record → Option String
get_string k r = and_then (get k r) as_string

-- `value === text` for a value that may be `undefined`
abbrev pub is_text : Option String → String → Bool
is_text none t = Bool.false
is_text (some s) t = eq s t

-- A string that passes the test `if (s)`: the empty string does not.
abbrev pub truthy : Option String → Option String
truthy none = none
truthy (some s) = if eq s "" then none else some s
