-- ===== src/Admin/Orchestrator/Done.antt =====
-- What ingestIssuance of src/admin/orchestrator.ts does for an issuance that is swept already.
use xrpl_registrar.Common.{
  ℕ, String, ◌≡◌, refl, sym, ap, subst, Bool, true, false, ◌&&◌, Option, none, some, List, [], ◌∷◌,
  arith, ◌==◌, if◌then◌else◌,
}
use xrpl_registrar.Common.Text.{eq}
use xrpl_registrar.Admin.Orchestrator.{
  IngestOptions, IngestState, Ingestion, ingested, issuer_of, ingest_issuance, ingest_for,
  sweep_job, sweep_unless_completed, enqueue_sweep, capture_ticker, summary_of, fetch_mpt_ticker,
  is_completed,
}
use xrpl_registrar.Backfill.Holders.{SweepDb}
use xrpl_registrar.Db.Issuances.{IssuanceRecord}
use xrpl_registrar.Db.Jobs.{
  BackfillJob, BackfillKind, BackfillStatus, pending, running, completed, failed, issuer, Jobs,
  enqueue, reclaim_rows, reclaim_stale, get_by_account, is_stale, of_issuance,
}

completed-is_stale : (st : BackfillStatus) → is_completed st ≡ true → is_stale st ≡ false
completed-is_stale pending h = absurd (ground (arith, h))
completed-is_stale running h = absurd (ground (arith, h))
completed-is_stale completed h = refl
completed-is_stale failed h = absurd (ground (arith, h))

abbrev is_of : ℕ → String → BackfillJob → Bool
is_of issuance_id address j = j.issuance_id == issuance_id && eq j.address address

-- One row of the table, which is reclaimed or not.
first_row :
    (stale : Bool) (issuance_id : ℕ) (address : String) (job j : BackfillJob)
    (found found' : Option BackfillJob)
    → (stale ≡ true → is_stale j.status ≡ true)
    → is_stale job.status ≡ false
    → (found ≡ some job → found' ≡ some job)
    → (if is_of issuance_id address j then some j else found) ≡ some job
    → (let j' = if stale then record j { status = pending } else j in
        if is_of issuance_id address j' then some j' else found')
      ≡ some job
first_row true issuance_id address job j found found' h kept rest e =
    ground (arith, h, kept, rest, e)
first_row false issuance_id address job j found found' h kept rest e = ground (arith, rest, e)

-- Reclaiming leaves a completed job as it is.
get_by_account-reclaim_rows :
    (only : Option ℕ) (issuance_id : ℕ) (address : String) (job : BackfillJob)
    (js : List BackfillJob)
    → is_completed job.status ≡ true
    → get_by_account issuance_id address js ≡ some job
    → get_by_account issuance_id address (reclaim_rows only js) ≡ some job
unfolding get_by_account reclaim_rows
get_by_account-reclaim_rows only issuance_id address job [] c e = e
get_by_account-reclaim_rows only issuance_id address job (j ∷ js) c e =
    first_row (is_stale j.status && of_issuance only j) issuance_id address job j
      (get_by_account issuance_id address js)
      (get_by_account issuance_id address (reclaim_rows only js)) (λ h. ground (arith, h))
      (completed-is_stale job.status c)
      (get_by_account-reclaim_rows only issuance_id address job js c) e

enqueue_again :
    (issuance_id : ℕ) (address : String) (from to : Option ℕ) (kind : BackfillKind)
    (job : BackfillJob) (js : Jobs)
    → get_by_account issuance_id address js.rows ≡ some job
    → enqueue issuance_id address from to kind js ≡ js
unfolding enqueue
enqueue_again issuance_id address from to kind job js e = ground (arith, e)

module _ {D : Type 0} (o : IngestOptions D) (pages : ℕ) (i : IssuanceRecord) (account : String)
    (job : BackfillJob) where
  enqueue_sweep-completed :
      (db : SweepDb D)
      → get_by_account i.id account db.jobs.rows ≡ some job
      → is_completed job.status ≡ true
      → get_by_account i.id account (enqueue_sweep i account db).jobs.rows ≡ some job
  unfolding enqueue_sweep reclaim_stale
  enqueue_sweep-completed db e c =
      subst (λ js. get_by_account i.id account (reclaim_rows (some i.id) js.rows) ≡ some job)
        (sym (enqueue_again i.id account (some i.backfill_from_ledger) none issuer job db.jobs e))
        (get_by_account-reclaim_rows (some i.id) i.id account job db.jobs.rows c e)

  swept_before :
      (s : IngestState D)
      → is_completed job.status ≡ true
      → sweep_unless_completed o pages i job s ≡ (s, ingested (summary_of o i 0 none s.db))
  unfolding sweep_unless_completed
  swept_before s c = ground (arith, c)

  capture_ticker-db :
      (fetch : String → Option String) (s : IngestState D) → (capture_ticker fetch i s).db ≡ s.db
  unfolding capture_ticker
  capture_ticker-db fetch s = ground arith

-- What an ingestion leaves as it was, and its answer, where there is nothing to sweep.
abbrev pub IsDone :
    {D : Type 0}
    → IngestOptions D
    → IssuanceRecord
    → String
    → BackfillJob
    → IngestState D
    → IngestState D × Ingestion
    → Type 0
IsDone o i account job s (after, result) =
    (result ≡ ingested (summary_of o i 0 none s.db))
    × (get_by_account i.id account after.db.jobs.rows ≡ some job)
    × (after.db.coverage ≡ s.db.coverage)
    × (after.db.deltas ≡ s.db.deltas)
    × (after.db.account_issuance ≡ s.db.account_issuance)
    × (after.db.archive.transactions ≡ s.db.archive.transactions)
    × (after.activity ≡ s.activity)

module _ {D : Type 0} (o : IngestOptions D) (pages : ℕ) (i : IssuanceRecord) (account : String)
    (job : BackfillJob) where
  -- The pipeline behind the ticker.
  ready-IsDone :
      (s named : IngestState D)
      → named.db ≡ s.db
      → named.activity ≡ s.activity
      → get_by_account i.id account s.db.jobs.rows ≡ some job
      → is_completed job.status ≡ true
      → let ready = record named { db = enqueue_sweep i account named.db } in
        IsDone o i account job s (ready, ingested (summary_of o i 0 none ready.db))
  unfolding enqueue_sweep summary_of
  ready-IsDone s named same idle e c = (
    ap (λ d. ingested (summary_of o i 0 none (enqueue_sweep i account d))) same,
    subst (λ d. get_by_account i.id account (enqueue_sweep i account d).jobs.rows ≡ some job)
        (sym same) (enqueue_sweep-completed o pages i account job s.db e c),
    ap (λ d. d.coverage) same,
    ap (λ d. d.deltas) same,
    ap (λ d. d.account_issuance) same,
    ap (λ d. d.archive.transactions) same,
    idle,
  )

  capture_ticker-activity :
      (fetch : String → Option String) (s : IngestState D)
      → (capture_ticker fetch i s).activity ≡ s.activity
  unfolding capture_ticker
  capture_ticker-activity fetch s = ground arith

  sweep_job-completed :
      (s : IngestState D)
      → get_by_account i.id account s.db.jobs.rows ≡ some job
      → is_completed job.status ≡ true
      → sweep_job o pages i account s ≡ (s, ingested (summary_of o i 0 none s.db))
  unfolding sweep_job
  sweep_job-completed s e c = ground (arith, e, swept_before o pages i account job s c)

  ingest_for-completed :
      (s : IngestState D)
      → get_by_account i.id account s.db.jobs.rows ≡ some job
      → is_completed job.status ≡ true
      → IsDone o i account job s (ingest_for o pages i account s)
  unfolding ingest_for
  ingest_for-completed s e c =
      let fetch = fetch_mpt_ticker o.ledger_entry o.decode_utf8 o.parse in
      let named = capture_ticker fetch i s in
      let ready = record named { db = enqueue_sweep i account named.db } in
      let done =
        ready-IsDone s named (capture_ticker-db o pages i account job fetch s)
          (capture_ticker-activity fetch s) e c in
      subst (IsDone o i account job s) (sym (sweep_job-completed ready done.1 c)) done

going_on :
    {D : Type 0} (o : IngestOptions D) (pages : ℕ) (i : IssuanceRecord) (account : String)
    (s : IngestState D)
    → issuer_of o.encode i ≡ some account
    → ingest_issuance o pages false i s ≡ ingest_for o pages i account s
unfolding ingest_issuance
going_on o pages i account s known = ground (arith, known)

-- Ingesting an issuance whose sweep is completed answers at once, however upstream behaves: no job
-- is swept, the job stays completed, and coverage, deltas, members, transactions and the registry
-- of activity are what they were.
pub ingest_issuance-completed :
    {D : Type 0} (o : IngestOptions D) (pages : ℕ) (i : IssuanceRecord) (account : String)
    (job : BackfillJob) (s : IngestState D)
    → issuer_of o.encode i ≡ some account
    → get_by_account i.id account s.db.jobs.rows ≡ some job
    → is_completed job.status ≡ true
    → IsDone o i account job s (ingest_issuance o pages false i s)
ingest_issuance-completed o pages i account job s known e c =
    subst (IsDone o i account job s) (sym (going_on o pages i account s known))
      (ingest_for-completed o pages i account job s e c)
