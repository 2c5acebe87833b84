-- ===== src/Tests/Clio.antt =====
-- src/clio at concrete inputs.
use xrpl_registrar.Common.{
  ℕ, ◌+◌, ◌*◌, ◌^◌, ◌≤◌, ◌<◌, min, ◌≡◌, refl, inl, true, none, some, List, [], ◌∷◌, arith, ltb,
  if◌then◌else◌,
}
use xrpl_registrar.Json.{Value, Record, string, object, end, field, get, as_record, as_string}
use xrpl_registrar.Clio.Governor.{
  GovernorOptions, Governor, create, default_governor_options, penalize,
}
use xrpl_registrar.Clio.Governor.Slots.{
  Event, takes, confirms, finishes, penalized, rewarded, run, IsSound, run-create-IsSound,
  release_many, take_many, release_many_fifo,
}
use xrpl_registrar.Clio.Governor.Backoff.{penalize_all, penalize_all-penalize, run-cooldown-le}
use xrpl_registrar.Common.Text.{eq}
use xrpl_registrar.Clio.Classify.{classify_error, by_status, by_name, by_system_code, has}
use xrpl_registrar.Clio.Classify.Causes.{
  carries_nothing, IsBuried, classify_error-wrapped, coded, classify_error-coded,
}
use xrpl_registrar.Clio.Client.{
  ClioRequest, ClioRawResponse, answered, failed, Round, prepare, request,
}
use xrpl_registrar.Clio.Client.Retries.{
  counted, final, is_load_failure, is_acquire, is_release, is_send, count, all_v2, request-final,
  request_balanced,
}

abbrev two_slots : GovernorOptions
two_slots = record default_governor_options { max_concurrent = 2 }

abbrev idle : Governor
idle = record {
  opts = two_slots;
  in_flight = 0;
  waiters = [];
  cooldown_until = 0;
  current_backoff_ms = 0;
  consecutive_penalties = 0;
  total_penalties = 0;
}

abbrev queued : Governor
queued = record idle { in_flight = 2; waiters = 7 ∷ 8 ∷ [] }

abbrev calls : List Event
calls =
    takes 1
    ∷ takes 2
    ∷ takes 3
    ∷ penalized 10 none
    ∷ confirms 2 11
    ∷ finishes 1
    ∷ rewarded 5000
    ∷ []

create_two : create two_slots ≡ some idle
unfolding create
create_two = refl

run-create-IsSound_example : IsSound 2 (run (record { governor = idle; holders = [] }) calls)
run-create-IsSound_example = run-create-IsSound two_slots idle calls create_two

release_many_fifo_example :
    let (after, resumed) = release_many 4 (take_many (9 ∷ 10 ∷ []) queued) in
    (resumed ≡ 7 ∷ 8 ∷ 9 ∷ 10 ∷ []) × (after.waiters ≡ []) × (after.in_flight ≡ 2)
release_many_fifo_example = release_many_fifo queued (9 ∷ 10 ∷ []) (omega arith)

abbrev penalty_times : List ℕ
penalty_times = 10 ∷ 1200 ∷ []

penalize_all-penalize_example :
    let (g', event) = penalize (penalize_all idle penalty_times) 4000 none in
    (event.backoff_ms ≡ min 60000 (1000 * 2 ^ 2))
    × (event.consecutive ≡ 3)
    × (g'.total_penalties ≡ 3)
    × (4000 + event.backoff_ms ≤ g'.cooldown_until)
penalize_all-penalize_example = penalize_all-penalize idle penalty_times 4000 none

run-cooldown-le_example :
    0 ≤ (run (record { governor = idle; holders = [] }) calls).governor.cooldown_until
run-cooldown-le_example = run-cooldown-le (record { governor = idle; holders = [] }) calls

-- A refused socket.
abbrev refused : Value
refused = object (field "code" (string "ECONNREFUSED") end)

abbrev not_found : Value
not_found = object (field "error" (string "actNotFound") end)

refused_retryable : (classify_error refused).retryable ≡ true
unfolding classify_error by_status by_name by_system_code has get as_record as_string eq
refused_retryable = refl

-- What `fetch` throws, inside an error that was thrown for it.
abbrev fetch_fields : Record
fetch_fields =
    field "name" (string "TypeError")
      (field "message" (string "fetch failed") (field "cause" refused end))

abbrev outer_fields : Record
outer_fields = field "message" (string "request timeout") (field "cause" (object fetch_fields) end)

outer_IsBuried : IsBuried refused (outer_fields ∷ fetch_fields ∷ []) (object outer_fields)
unfolding carries_nothing has get as_record as_string eq
outer_IsBuried = (refl, refl, object fetch_fields, refl, (refl, refl, refused, refl, refl))

classify_error-wrapped_example : classify_error (object outer_fields) ≡ classify_error refused
classify_error-wrapped_example =
    classify_error-wrapped refused (outer_fields ∷ fetch_fields ∷ []) (object outer_fields)
      refused_retryable outer_IsBuried

classify_error-coded_example : coded (classify_error refused) ≡ true
classify_error-coded_example = classify_error-coded refused

abbrev server_info : ClioRequest
server_info = record { command = "server_info"; api_version = none; params = end }

abbrev server_info_v2 : ClioRequest
server_info_v2 = record server_info { api_version = some 2 }

abbrev pong : ClioRawResponse
pong = record { result = end; warnings = none; forwarded = none }

-- Two failed rounds, then an answer.
abbrev rounds : ℕ → Round
rounds n = record {
  outcome = if ltb n 2 then failed refused else answered pong;
  fetched_at = "2026-01-01T00:00:00Z";
  is_connected = true;
}

prepare-server_info : prepare server_info ≡ some server_info_v2
unfolding prepare
prepare-server_info = refl

rounds_fail : (j : ℕ) → j < 2 → is_load_failure (rounds j).outcome ≡ true
rounds_fail j h = ground (arith, refused_retryable)

request-final_example :
    counted "http://clio" rounds (request "http://clio" rounds 5 server_info)
    ≡ (3, final "http://clio" rounds server_info_v2 2 (answered pong))
request-final_example =
    request-final "http://clio" rounds 5 2 server_info server_info_v2 prepare-server_info
      (omega arith) rounds_fail (inl refl)

request_balanced_example :
    let x = request "http://clio" rounds 1 server_info in
    (count is_acquire x.calls ≡ count is_send x.calls)
    × (count is_release x.calls ≡ count is_send x.calls)
    × (count is_send x.calls ≤ 2)
    × (all_v2 x.calls ≡ true)
request_balanced_example = request_balanced "http://clio" rounds 1 server_info
