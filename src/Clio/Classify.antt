-- ===== src/Clio/Classify.antt =====
-- src/clio/classify.ts: is an error a load signal, and what is its code? An error is the JSON of
-- its own properties; such a tree has no cycle, so `cause !== err` always holds.
pub mod Causes
use xrpl_registrar.Common.{
  ℕ, ◌+◌, String, Bool, true, false, ◌&&◌, ◌||◌, Option, none, some, List, ◌∷◌, leb, ◌==◌,
  if◌then◌else◌, [],
}
use xrpl_registrar.Common.BigInt.{codes}
use xrpl_registrar.Common.Int.{ℤ, pos, pos_part}
use xrpl_registrar.Common.Text.{eq}
use xrpl_registrar.Json.{
  Value, Fields, Record, get, as_record, as_string, and_then, get_string, get_record, string,
  object, number, end, field, or_other,
}

abbrev pub load_error_codes : List String
load_error_codes =
    "slowDown" ∷ "tooBusy" ∷ "noNetwork" ∷ "noCurrent" ∷ "noClosed" ∷ "amendmentBlocked" ∷ []

abbrev pub connection_error_names : List String
connection_error_names =
    "DisconnectedError" ∷ "NotConnectedError" ∷ "ConnectionError" ∷ "TimeoutError"
    ∷ "ResponseFormatError" ∷ []

abbrev pub connection_error_codes : List String
connection_error_codes =
    "ECONNRESET" ∷ "ECONNREFUSED" ∷ "ECONNABORTED" ∷ "EPIPE" ∷ "ETIMEDOUT" ∷ "EHOSTUNREACH"
    ∷ "ENETUNREACH" ∷ "EAI_AGAIN" ∷ "ENOTFOUND" ∷ "UND_ERR_SOCKET" ∷ "UND_ERR_CONNECT_TIMEOUT"
    ∷ "UND_ERR_HEADERS_TIMEOUT" ∷ "UND_ERR_BODY_TIMEOUT" ∷ "UND_ERR_ABORTED" ∷ []

-- The alternatives of the pattern, in lower case; it is matched with the flag `i`.
abbrev pub connection_error_pattern : List String
connection_error_pattern =
    "disconnect" ∷ "not connected" ∷ "connection closed" ∷ "connection reset" ∷ "connection refused"
    ∷ "connection lost" ∷ "connection error" ∷ "socket hang up" ∷ "websocket" ∷ "fetch failed"
    ∷ "econnreset" ∷ "econnrefused" ∷ "epipe" ∷ "etimedout" ∷ "timeout" ∷ "time-out" ∷ "time out"
    ∷ "timedout" ∷ "timed-out" ∷ "timed out" ∷ []

-- `set.has(text)`
unfoldable pub has : List String → String → Bool
has [] s = false
has (t ∷ ts) s = eq t s || has ts s

to_lower : ℕ → ℕ
to_lower c = if leb b'A' c && leb c b'Z' then c + 32 else c

begins_with : List ℕ → List ℕ → Bool
unfolding to_lower
begins_with [] cs = true
begins_with (p ∷ ps) [] = false
begins_with (p ∷ ps) (c ∷ cs) = p == to_lower c && begins_with ps cs

contains : List ℕ → List ℕ → Bool
unfolding begins_with
contains ps [] = begins_with ps []
contains ps (c ∷ cs) = begins_with ps (c ∷ cs) || contains ps cs

any_contained : List String → List ℕ → Bool
unfolding contains
any_contained [] cs = false
any_contained (t ∷ ts) cs = contains (codes t) cs || any_contained ts cs

unfoldable pub pattern_test : String → Bool
unfolding any_contained
pattern_test s = any_contained connection_error_pattern (codes s)

-- A synthetic code: a text, or `HTTP_` with the status.
pub data Code : Type 0 where
  slug : String → Code
  http : ℤ → Code

pub record ErrorClassification : Type 0 where
  pub code : Option Code
  pub retryable : Bool

abbrev unknown : Option String → ErrorClassification
unknown none = record { code = none; retryable = false }
unknown (some name) = record { code = some (slug name); retryable = false }

abbrev by_slug : String → ErrorClassification
by_slug s = record { code = some (slug s); retryable = has load_error_codes s }

-- `httpStatus === 429 || httpStatus >= 500`
abbrev pub load_status : ℤ → Bool
load_status (ℤ.pos n) = n == 429 || leb 500 n
load_status (ℤ.negsuc n) = false

abbrev pub as_number : Value → Option ℤ
as_number (number n) = some n
as_number _ = none

abbrev pub listed : List String → Option String → Option String
listed names none = none
listed names (some s) = if has names s then some s else none

abbrev code_or_connection : Option String → Code
code_or_connection none = slug "ConnectionError"
code_or_connection (some name) = slug name

-- The last test, by message.
unfoldable pub by_message : Record → ErrorClassification
by_message r = elim (get_string "message" r) [
  | none ↦ unknown (get_string "name" r)
  | some message ↦
      if pattern_test message
      then record { code = some (code_or_connection (get_string "name" r)); retryable = true }
      else unknown (get_string "name" r)
]

-- `if (inner.retryable) return inner`
unfoldable pub by_cause : Option ErrorClassification → Record → ErrorClassification
unfolding by_message
by_cause none r = by_message r
by_cause (some inner) r = if inner.retryable then inner else by_message r

unfoldable pub by_system_code : Option ErrorClassification → Record → ErrorClassification
unfolding by_cause
by_system_code inner r = elim (listed connection_error_codes (get_string "code" r)) [
  | none ↦ by_cause inner r
  | some code ↦ record { code = some (slug code); retryable = true }
]

unfoldable pub by_name : Option ErrorClassification → Record → ErrorClassification
unfolding by_system_code
by_name inner r = elim (listed connection_error_names (get_string "name" r)) [
  | none ↦ by_system_code inner r
  | some name ↦ record { code = some (slug name); retryable = true }
]

unfoldable pub by_status : Option ErrorClassification → Record → ErrorClassification
unfolding by_name
by_status inner r = elim (and_then (get "httpStatus" r) as_number) [
  | none ↦ by_name inner r
  | some status ↦ record { code = some (http status); retryable = load_status status }
]

-- `err.data.error`; a `data` that is an array has no such property.
abbrev pub data_error : Record → Option String
data_error r = and_then (get_record "data" r) (get_string "error")

-- All of `classifyError`, given what it says of the cause.
unfoldable pub classify_record : Option ErrorClassification → Record → ErrorClassification
unfolding by_status
classify_record inner r = elim (or_other (data_error r) (get_string "error" r)) [
  | none ↦ by_status inner r
  | some code ↦ by_slug code
]

unfoldable mutual
  unfolding classify_record

  pub classify_error : Value → ErrorClassification
  classify_error (object fs) = classify_record (classify_cause fs) fs
  classify_error _ = record { code = none; retryable = false }

  -- The classification of `record["cause"]`.
  pub classify_cause : Fields → Option ErrorClassification
  classify_cause end = none
  classify_cause (field k v fs) =
      if eq k "cause" then some (classify_error v) else classify_cause fs
