-- ===== src/Api/Responses.antt =====
-- src/api/errors.ts, src/api/warnings.ts and src/api/types.ts: the results, warnings and requests
-- of the read API. A number is printed by a parameter, as the language prints it.
use xrpl_registrar.Common.{ℕ, String, Bool, Option, none, some, List, [], ◌∷◌, if◌then◌else◌}
use xrpl_registrar.Common.Int.{ℤ}
use xrpl_registrar.Common.Text.{eq, template}
use xrpl_registrar.Common.{ℕ, String, Bool, Option, none, some, List, [], ◌∷◌, if◌then◌else◌}
use xrpl_registrar.Json.{Value, Fields, end, field, string, object}

pub record Warning : Type 0 where
  pub id : ℕ
  pub message : String
  pub details : Option Value

-- The members of a request that the handler itself reads.
pub record ApiRequest : Type 0 where
  pub command : String
  pub api_version : Option ℤ
  pub fields : Fields

pub record ApiResponse : Type 0 where
  pub result : Fields
  pub warnings : List Warning
  pub forwarded : Bool

pub record MethodResult : Type 0 where
  pub result : Fields
  pub extra_warnings : List Warning

-- `record[key] = value`
unfoldable pub set : String → Value → Fields → Fields
set k v end = field k v end
set k v (field j u fs) = if eq j k then field k v fs else field j u (set k v fs)

-- `{ ...a, ...b }`
unfoldable pub spread : Fields → Fields → Fields
unfolding set
spread a end = a
spread a (field k v fs) = spread (set k v a) fs

unfoldable pub error_result : String → String → Fields → Fields
unfolding spread
error_result error message extra =
    spread
      (field "status" (string "error")
        (field "error" (string error) (field "error_message" (string message) end)))
      extra

unfoldable pub not_in_archive : String → Value → Fields
unfolding error_result
not_in_archive what scope =
    error_result "notInArchive"
      (template (
        what ∷ " is not in this filtered archive (it may exist on the ledger, out of scope)." ∷ []))
      (field "details" (object (field "scope" scope end)) end)

abbrev got_text : (ℤ → String) → Option ℤ → String
got_text print none = "none"
got_text print (some n) = print n

unfoldable pub invalid_api_version : (ℤ → String) → Option ℤ → Fields
unfolding error_result
invalid_api_version print got =
    error_result "invalidApiVersion"
      (template ("api_version 2 is required (got " ∷ got_text print got ∷ ")." ∷ [])) end

unfoldable pub invalid_params : String → Fields
unfolding error_result
invalid_params message = error_result "invalidParams" message end

unfoldable pub unsupported : String → Fields
unfolding error_result
unsupported command =
    error_result "unsupported"
      (template ("Method '" ∷ command ∷ "' is not supported by this archive." ∷ [])) end

abbrev pub clio_warning : Warning
clio_warning = record {
  id = 2001;
  message =
      "This is a clio server. clio only serves validated data. If you want to talk to rippled, include 'ledger_index':'current' in your request";
  details = none;
}

abbrev pub filtered_archive_warning_id : ℕ
filtered_archive_warning_id = 65001

abbrev pub forwarded_not_archive_warning_id : ℕ
forwarded_not_archive_warning_id = 65002

abbrev pub filtered_archive_warning : Warning
filtered_archive_warning = record {
  id = filtered_archive_warning_id;
  message =
      "This is a filtered XRPL archive: it serves only accounts in scope for its tracked issuances. Absence of data may mean out-of-scope, not non-existent.";
  details = none;
}

abbrev pub forwarded_not_archive_warning : Warning
forwarded_not_archive_warning = record {
  id = forwarded_not_archive_warning_id;
  message =
      "This response was proxied from an upstream node and is not archive-sourced; it carries no completeness or provenance guarantee.";
  details = none;
}

abbrev pub local_warnings : List Warning
local_warnings = clio_warning ∷ filtered_archive_warning ∷ []
