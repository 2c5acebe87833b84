-- ===== src/Db/Jobs.antt =====
-- src/db/repositories/backfillJobs.ts: the table `backfill_job`, oldest row first, and the
-- statements on it. `updated_at` is left out.
pub mod Claims
pub mod Keys
use xrpl_registrar.Common.{
  ℕ, ◌+◌, String, Bool, true, false, ◌&&◌, Option, none, some, List, ◌∷◌, ◌++◌, ◌==◌, if◌then◌else◌,
  [],
}
use xrpl_registrar.Common.Text.{eq}
use xrpl_registrar.Json.{Value}

pub data BackfillStatus : Type 0 where
  pending running completed failed : BackfillStatus

pub data BackfillKind : Type 0 where
  account issuer : BackfillKind

pub record BackfillJob : Type 0 where
  pub id : ℕ
  pub address : String
  pub issuance_id : ℕ
  pub from_ledger : Option ℕ
  pub to_ledger : Option ℕ
  pub last_marker : Option Value
  pub status : BackfillStatus
  pub kind : BackfillKind
  pub tx_count : ℕ

-- The rows, and the identity column's next value.
pub record Jobs : Type 0 where
  pub rows : List BackfillJob
  pub next_id : ℕ

abbrev pub is_pending : BackfillStatus → Bool
is_pending pending = true
is_pending _ = false

abbrev pub is_stale : BackfillStatus → Bool
is_stale running = true
is_stale failed = true
is_stale _ = false

abbrev pub same_kind : BackfillKind → BackfillKind → Bool
same_kind account account = true
same_kind issuer issuer = true
same_kind _ _ = false

-- `WHERE id = $1`
unfoldable pub update_row : (BackfillJob → BackfillJob) → ℕ → List BackfillJob → List BackfillJob
update_row f id [] = []
update_row f id (j ∷ js) = if j.id == id then f j ∷ update_row f id js else j ∷ update_row f id js

unfoldable pub get_row : ℕ → List BackfillJob → Option BackfillJob
get_row id [] = none
get_row id (j ∷ js) = if j.id == id then some j else get_row id js

unfoldable pub get_by_account : ℕ → String → List BackfillJob → Option BackfillJob
get_by_account issuance_id address [] = none
get_by_account issuance_id address (j ∷ js) =
    if j.issuance_id == issuance_id && eq j.address address
    then some j
    else get_by_account issuance_id address js

-- `marker === undefined || marker === null ? null : …`
abbrev pub stored_marker : Option Value → Option Value
stored_marker none = none
stored_marker (some Value.null) = none
stored_marker (some m) = some m

-- `checkpointJob`
abbrev pub checkpointed : Option Value → ℕ → BackfillJob → BackfillJob
checkpointed marker added j = record j {
  last_marker = stored_marker marker;
  status = running;
  tx_count = j.tx_count + added;
}

unfoldable pub checkpoint_job : ℕ → Option Value → ℕ → Jobs → Jobs
unfolding update_row
checkpoint_job id marker added js = record js {
  rows = update_row (checkpointed marker added) id js.rows;
}

unfoldable pub complete_job : ℕ → Jobs → Jobs
unfolding update_row
complete_job id js = record js {
  rows = update_row (λ j. record j { last_marker = none; status = completed }) id js.rows;
}

unfoldable pub fail_job : ℕ → Jobs → Jobs
unfolding update_row
fail_job id js = record js { rows = update_row (λ j. record j { status = failed }) id js.rows }

abbrev new_job : ℕ → ℕ → String → Option ℕ → Option ℕ → BackfillKind → BackfillJob
new_job id issuance_id address from_ledger to_ledger kind = record {
  id = id;
  address = address;
  issuance_id = issuance_id;
  from_ledger = from_ledger;
  to_ledger = to_ledger;
  last_marker = none;
  status = pending;
  kind = kind;
  tx_count = 0;
}

-- `enqueue`: ON CONFLICT (address, issuance_id) DO NOTHING.
unfoldable pub enqueue : ℕ → String → Option ℕ → Option ℕ → BackfillKind → Jobs → Jobs
unfolding get_by_account
enqueue issuance_id address from_ledger to_ledger kind js =
    elim (get_by_account issuance_id address js.rows) [
      | some j ↦ js
      | none ↦ record {
        rows = js.rows ++ new_job js.next_id issuance_id address from_ledger to_ledger kind ∷ [];
        next_id = js.next_id + 1;
      }
    ]

unfoldable pub enqueue_many : ℕ → List String → Option ℕ → Jobs → Jobs
unfolding enqueue
enqueue_many issuance_id [] from_ledger js = js
enqueue_many issuance_id (address ∷ rest) from_ledger js =
    enqueue_many issuance_id rest from_ledger
      (enqueue issuance_id address from_ledger none account js)

-- `issuance_id = $1`, where an issuance is given.
abbrev pub of_issuance : Option ℕ → BackfillJob → Bool
of_issuance none j = true
of_issuance (some i) j = j.issuance_id == i

abbrev pub claimable : Option ℕ → BackfillKind → BackfillJob → Bool
claimable issuance_id kind j =
    is_pending j.status && same_kind j.kind kind && of_issuance issuance_id j

-- SELECT id … ORDER BY id LIMIT 1: the rows stand in the order of their ids.
unfoldable pub next_pending : Option ℕ → BackfillKind → List BackfillJob → Option BackfillJob
next_pending issuance_id kind [] = none
next_pending issuance_id kind (j ∷ js) =
    if claimable issuance_id kind j then some j else next_pending issuance_id kind js

abbrev run_row : BackfillJob → BackfillJob
run_row j = record j { status = running }

-- `claim`: the row that is returned has its new status.
unfoldable pub claim : Option ℕ → BackfillKind → Jobs → Jobs × Option BackfillJob
unfolding next_pending update_row
claim issuance_id kind js = elim (next_pending issuance_id kind js.rows) [
  | none ↦ (js, none)
  | some j ↦ (record js { rows = update_row run_row j.id js.rows }, some (run_row j))
]

unfoldable pub reclaim_rows : Option ℕ → List BackfillJob → List BackfillJob
reclaim_rows issuance_id [] = []
reclaim_rows issuance_id (j ∷ js) =
    (if is_stale j.status && of_issuance issuance_id j then record j { status = pending } else j)
    ∷ reclaim_rows issuance_id js

-- `reclaimStale`
unfoldable pub reclaim_stale : Option ℕ → Jobs → Jobs
unfolding reclaim_rows
reclaim_stale issuance_id js = record js { rows = reclaim_rows issuance_id js.rows }
