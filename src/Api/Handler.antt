-- ===== src/Api/Handler.antt =====
-- src/api/handler.ts: the request handler. The method handlers, the scope test and the upstream
-- node are the fields of `Parts`; a forwarder that rejects answers `none`.
pub mod Provenance
use xrpl_registrar.Common.{
  String, Bool, true, false, not, ◌&&◌, ◌||◌, Option, none, some, List, ◌∷◌, ◌++◌, if◌then◌else◌,
  [],
}
use xrpl_registrar.Common.Int.{ℤ, pos, eq_ℤ}
use xrpl_registrar.Common.Text.{one_of, eq, template}
use xrpl_registrar.Json.{Value, Fields, end, get_string, truthy}
use xrpl_registrar.Api.Responses.{
  Warning, ApiRequest, ApiResponse, MethodResult, error_result, invalid_api_version, unsupported,
  local_warnings, forwarded_not_archive_warning,
}

abbrev pub node_state : List String
node_state = "server_info" ∷ "ledger" ∷ "fee" ∷ []

abbrev pub submission : List String
submission = "submit" ∷ "submit_multisigned" ∷ []

abbrev pub archive_scoped : List String
archive_scoped =
    "account_tx" ∷ "tx" ∷ "account_info" ∷ "account_lines" ∷ "mpt_holders" ∷ "gateway_balances" ∷ []

abbrev pub account_scoped : List String
account_scoped = "account_tx" ∷ "account_info" ∷ "account_lines" ∷ []

abbrev pub reporting : List String
reporting = "archive_balance_at" ∷ "archive_transactions" ∷ []

abbrev pub implemented_archive : List String
implemented_archive =
    "account_tx" ∷ "tx" ∷ "account_info" ∷ "account_lines" ∷ "mpt_holders" ∷ "gateway_balances" ∷ []

pub record ForwardResult : Type 0 where
  pub result : Fields
  pub warnings : List Warning

pub record Parts : Type 0 where
  pub in_scope : String → Bool
  pub forward : ApiRequest → Option ForwardResult
  pub forward_unknown : Bool
  pub handle_account_tx : ApiRequest → MethodResult
  pub handle_tx : ApiRequest → MethodResult
  pub handle_account_info : ApiRequest → MethodResult
  pub handle_account_lines : ApiRequest → MethodResult
  pub handle_mpt_holders : ApiRequest → MethodResult
  pub handle_gateway_balances : ApiRequest → MethodResult
  pub handle_balance_at : ApiRequest → MethodResult
  pub handle_transactions : ApiRequest → MethodResult
  pub print : ℤ → String

unfoldable pub local : Fields → ApiResponse
local result = record { result = result; warnings = local_warnings; forwarded = false }

unfoldable pub local_from : MethodResult → ApiResponse
local_from mr = record {
  result = mr.result;
  warnings = local_warnings ++ mr.extra_warnings;
  forwarded = false;
}

abbrev unavailable : String → Fields
unavailable command =
    error_result "forwardingUnavailable"
      (template ("Could not forward '" ∷ command ∷ "' upstream." ∷ [])) end

-- What `#forward` answers, from what the forwarder did.
unfoldable pub forwarded_response : ApiRequest → Option ForwardResult → ApiResponse
unfolding local
forwarded_response req (some f) = record {
  result = f.result;
  warnings = f.warnings ++ forwarded_not_archive_warning ∷ [];
  forwarded = true;
}
forwarded_response req none = local (unavailable req.command)

-- `req.api_version !== 2`, the other way round.
abbrev is_version_2 : Option ℤ → Bool
is_version_2 none = false
is_version_2 (some v) = eq_ℤ v (pos 2)

module _ (api : Parts) where
  unfoldable pub dispatch_archive : ApiRequest → MethodResult
  dispatch_archive req =
      if eq req.command "account_tx"
      then api.handle_account_tx req
      else if eq req.command "tx"
      then api.handle_tx req
      else if eq req.command "account_info"
      then api.handle_account_info req
      else if eq req.command "account_lines"
      then api.handle_account_lines req
      else if eq req.command "mpt_holders"
      then api.handle_mpt_holders req
      else if eq req.command "gateway_balances"
      then api.handle_gateway_balances req
      else record { result = unsupported req.command; extra_warnings = [] }

  -- `account && !(await inScope(account))`
  abbrev out_of_scope : Option String → Bool
  out_of_scope none = false
  out_of_scope (some account) = not (api.in_scope account)

  unfoldable pub handle : ApiRequest → ApiResponse
  unfolding dispatch_archive local local_from forwarded_response
  handle req =
      if not (is_version_2 req.api_version)
      then local (invalid_api_version api.print req.api_version)
      else if one_of req.command reporting
      then local_from (
          if eq req.command "archive_balance_at"
          then api.handle_balance_at req
          else api.handle_transactions req)
      else if one_of req.command node_state || one_of req.command submission
      then forwarded_response req (api.forward req)
      else if one_of req.command archive_scoped
      then if not (one_of req.command implemented_archive)
        then local (unsupported req.command)
        else if api.forward_unknown
            && one_of req.command account_scoped
            && out_of_scope (truthy (get_string "account" req.fields))
        then forwarded_response req (api.forward req)
        else local_from (dispatch_archive req)
      else local (unsupported req.command)
