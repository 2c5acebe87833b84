-- ===== src/Api/Handler/Provenance.antt =====
-- What handler.ts says of where an answer is from.
use xrpl_registrar.Common.{
  ℕ, ◌≡◌, refl, inl, inr, Bool, true, false, not, ◌&&◌, ◌||◌, Option, none, some, arith,
  if◌then◌else◌, Any, Any-append_right,
}
use xrpl_registrar.Common.Text.{one_of}
use xrpl_registrar.Json.{Fields, get_string, truthy}
use xrpl_registrar.Api.Responses.{
  Warning, ApiRequest, ApiResponse, MethodResult, unsupported, filtered_archive_warning_id,
  forwarded_not_archive_warning_id,
}
use xrpl_registrar.Api.Handler.{
  Parts, reporting, archive_scoped, implemented_archive, node_state, submission, account_scoped,
  handle, local, local_from, forwarded_response, dispatch_archive, ForwardResult, out_of_scope,
  is_version_2, unavailable,
}

-- The warning that says where the answer is from.
abbrev pub origin_id : Bool → ℕ
origin_id true = forwarded_not_archive_warning_id
origin_id false = filtered_archive_warning_id

unfoldable pub IsMarked : ApiResponse → Type 0
IsMarked r = Any (λ (w : Warning). w.id ≡ origin_id r.forwarded) r.warnings

local_from-IsMarked : (mr : MethodResult) → IsMarked (local_from mr)
unfolding IsMarked local_from
local_from-IsMarked mr = inr (inl refl)

local-IsMarked : (result : Fields) → IsMarked (local result)
unfolding IsMarked local
local-IsMarked result = inr (inl refl)

forwarded_response-IsMarked :
    (req : ApiRequest) (f : Option ForwardResult) → IsMarked (forwarded_response req f)
unfolding IsMarked forwarded_response
forwarded_response-IsMarked req (some f) = Any-append_right _ f.warnings _ (inl refl)
forwarded_response-IsMarked req none = local-IsMarked (unavailable req.command)

-- A property of both branches of a test.
branch :
    (P : ApiResponse → Type 0) (b : Bool) (r r' : ApiResponse)
    → P r
    → P r'
    → P (if b then r else r')
branch P true r r' h h' = h
branch P false r r' h h' = h'

-- Every response says where it is from: one that an upstream node gave carries the warning that it
-- is not archive-sourced, and every other one the warning that this is a filtered archive.
pub handle-IsMarked : (api : Parts) (req : ApiRequest) → IsMarked (handle api req)
unfolding handle
handle-IsMarked api req =
    branch IsMarked (not (is_version_2 req.api_version)) _ _ (local-IsMarked _) (
      branch IsMarked (one_of req.command reporting) _ _ (local_from-IsMarked _) (
        branch IsMarked (one_of req.command node_state || one_of req.command submission) _ _
          (forwarded_response-IsMarked req (api.forward req))
          (branch IsMarked (one_of req.command archive_scoped) _ _
            (branch IsMarked (not (one_of req.command implemented_archive)) _ _
              (local-IsMarked (unsupported req.command))
              (branch IsMarked
                (api.forward_unknown
                  && one_of req.command account_scoped
                  && out_of_scope api (truthy (get_string "account" req.fields)))
                _ _ (forwarded_response-IsMarked req (api.forward req))
                (local_from-IsMarked (dispatch_archive api req))))
            (local-IsMarked (unsupported req.command)))))

-- The requests that may leave the archive: node state and submissions, and, where that is enabled,
-- account reads of an account that the archive does not hold.
abbrev pub may_forward : Parts → ApiRequest → Bool
may_forward api req =
    is_version_2 req.api_version
    && (one_of req.command node_state
        || (one_of req.command submission
            || (api.forward_unknown
                && one_of req.command account_scoped
                && out_of_scope api (truthy (get_string "account" req.fields)))))

-- Only a request of version 2 is answered by an upstream node, and only one for node state, for a
-- submission, or, where forwarding of unknown accounts is enabled, an account read whose account
-- is out of scope.
pub handle-may_forward :
    (api : Parts) (req : ApiRequest)
    → (handle api req).forwarded ≡ true
    → may_forward api req ≡ true
unfolding handle local local_from forwarded_response
handle-may_forward api req h = ground (arith, h)
