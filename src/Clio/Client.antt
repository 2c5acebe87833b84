-- ===== src/Clio/Client.antt =====
-- src/clio/client.ts, src/clio/errors.ts: one request through the governor, with its retries. What
-- the transport answers in each round is an argument, and the calls that the client makes are
-- listed in order; the message texts and the log lines are left out.
pub mod Retries
use xrpl_registrar.Common.{
  ℕ, zero, suc, ◌+◌, String, Bool, false, Option, none, some, List, ◌∷◌, ◌++◌, ◌==◌, if◌then◌else◌,
  or_else, [],
}
use xrpl_registrar.Json.{Value, Record}
use xrpl_registrar.Clio.Classify.{Code, ErrorClassification, classify_error}

pub record ClioRequest : Type 0 where
  pub command : String
  pub api_version : Option ℕ
  pub params : Record

pub record ClioRawResponse : Type 0 where
  pub result : Record
  pub warnings : Option (List Value)
  pub forwarded : Option Bool

pub record Provenance : Type 0 where
  pub source_endpoint : String
  pub fetched_at : String

pub record ClioResponse : Type 0 where
  pub result : Record
  pub forwarded : Bool
  pub warnings : List Value
  pub provenance : Provenance
  pub raw : ClioRawResponse

pub data ClientError : Type 0 where
  api_version_error : ℕ → ClientError
  request_error : String → Option Code → ℕ → Value → ClientError

pub data Outcome : Type 0 where
  answered : ClioRawResponse → Outcome
  failed : Value → Outcome

-- What one round meets: the transport's answer, when it came, and whether the socket is still
-- connected after a failure.
pub record Round : Type 0 where
  pub outcome : Outcome
  pub fetched_at : String
  pub is_connected : Bool

pub data Call : Type 0 where
  acquires releases rewards penalizes connects : Call
  sends : ClioRequest → Call

pub data Result : Type 0 where
  ok : ClioResponse → Result
  throws : ClientError → Result

pub record Exchange : Type 0 where
  pub calls : List Call
  pub result : Result

-- `#prepare`; `none` is its refusal of another version.
unfoldable pub prepare : ClioRequest → Option ClioRequest
prepare req =
    if or_else req.api_version 2 == 2 then some (record req { api_version = some 2 }) else none

module _ (endpoint : String) (rounds : ℕ → Round) where
  unfoldable pub wrap : ℕ → ClioRawResponse → ClioResponse
  wrap attempt raw = record {
    result = raw.result;
    forwarded = or_else raw.forwarded false;
    warnings = or_else raw.warnings [];
    provenance = record { source_endpoint = endpoint; fetched_at = (rounds attempt).fetched_at };
    raw = raw;
  }

  -- The error that is thrown once `attempt` rounds have been retried.
  unfoldable pub give_up : ClioRequest → ℕ → Value → Result
  give_up req attempt err =
      throws (request_error req.command (classify_error err).code (attempt + 1) err)

  abbrev reconnect : ℕ → List Call
  reconnect attempt = if (rounds attempt).is_connected then [] else connects ∷ []

  abbrev after : List Call → Exchange → Exchange
  after calls x = record { calls = calls ++ x.calls; result = x.result }

  -- The loop, by the retries that are left.
  unfoldable pub request_loop : ClioRequest → ℕ → ℕ → Exchange
  request_loop req zero attempt = elim (rounds attempt).outcome [
    | answered raw ↦ record {
      calls = acquires ∷ sends req ∷ rewards ∷ releases ∷ [];
      result = ok (wrap attempt raw);
    }
    | failed err ↦ record {
      calls =
          acquires
          ∷ sends req
          ∷ (if (classify_error err).retryable then penalizes ∷ releases ∷ [] else releases ∷ []);
      result = give_up req attempt err;
    }
  ]
  request_loop req (suc retries) attempt = elim (rounds attempt).outcome [
    | answered raw ↦ record {
      calls = acquires ∷ sends req ∷ rewards ∷ releases ∷ [];
      result = ok (wrap attempt raw);
    }
    | failed err ↦
        let again =
          after (acquires ∷ sends req ∷ penalizes ∷ (reconnect attempt ++ releases ∷ []))
            (request_loop req retries (attempt + 1)) in
        if (classify_error err).retryable then again else record {
          calls = acquires ∷ sends req ∷ releases ∷ [];
          result = give_up req attempt err;
        }
  ]

  abbrev start : ℕ → Option ClioRequest → ClioRequest → Exchange
  start max_retries none req = record {
    calls = [];
    result = throws (api_version_error (or_else req.api_version 2));
  }
  start max_retries (some outbound) req = request_loop outbound max_retries 0

  unfoldable pub request : ℕ → ClioRequest → Exchange
  request max_retries req = start max_retries (prepare req) req
