-- ===== src/Admin/Orchestrator.antt =====
-- src/admin/orchestrator.ts: the pipeline that takes in one issuance. Upstream, the decoding of UTF-8
-- and JSON, the address codec and the times of the activity registry are arguments.
pub mod Done
use xrpl_registrar.Common.{
  ℕ, String, Bool, true, false, ◌&&◌, Option, none, some, List, [], ◌∷◌, ltb, leb, ◌==◌,
  if◌then◌else◌, or_else, length, keep_if,
}
use Prim.Native.String.{count}
use xrpl_registrar.Common.BigInt.{codes}
use xrpl_registrar.Common.Text.{eq, template}
use xrpl_registrar.Admin.Activity.{ActivityKind, ActivityRegistry, track}
use xrpl_registrar.Backfill.Holders.{SweepDb}
use xrpl_registrar.Backfill.Sweep.{SweepOptions, run_issuer_backfill}
use xrpl_registrar.Backfill.Worker.{Ending, finished, stopped, failed, crashed}
use xrpl_registrar.Db.Issuances.{IssuanceRecord, Issuances, mpt, iou, set_ticker}
use xrpl_registrar.Db.Jobs.{
  BackfillJob, BackfillStatus, completed, issuer, enqueue, reclaim_stale, get_by_account,
}
use xrpl_registrar.Json.{Value, Record, as_record, get_record, get_string, and_then}
use xrpl_registrar.Reconcile.BalanceDeltas.{ensure_account}
use xrpl_registrar.Reconcile.Incremental.{TrackedIssuance, tracked_issuance}
use xrpl_registrar.Xrpl.Hex.{hex_to_bytes}
use xrpl_registrar.Xrpl.Mpt.{decode_mpt_issuer}

pub record IngestSummary : Type 0 where
  pub strategy : String
  pub discovered : ℕ
  pub jobs_processed : ℕ
  pub delta_rows : ℕ
  pub high_water : Option ℕ

-- What the pipeline leaves: it answers, throws, or the process ends within the sweep.
pub data Ingestion : Type 0 where
  ingested : (summary : IngestSummary) → Ingestion
  thrown killed : Ingestion

-- `issuerOf`, which throws where the stored id cannot be decoded.
unfoldable pub issuer_of : (List ℕ → Option String) → IssuanceRecord → Option String
issuer_of encode i = elim i.kind [
  | mpt ↦ decode_mpt_issuer encode (or_else i.mpt_issuance_id "")
  | iou ↦ some (or_else i.issuer_account "")
]

-- `typeof ticker === "string" && ticker.length > 0 && ticker.length <= 32`
abbrev usable : String → Option String
usable ticker = if ltb 0 (count ticker) && leb (count ticker) 32 then some ticker else none

abbrev non_empty : String → Option String
non_empty s = if eq s "" then none else some s

-- `fetchMptTicker`: `none` of the request and of the readers is a failure, which is caught.
unfoldable pub fetch_mpt_ticker :
    (String → Option Record) → (List ℕ → String) → (String → Option Value) → String → Option String
fetch_mpt_ticker ledger_entry decode_utf8 parse mpt_issuance_id =
    and_then (ledger_entry mpt_issuance_id) λ result. and_then (get_record "node" result) λ node.
      and_then (and_then (get_string "MPTokenMetadata" node) non_empty) λ hex.
        and_then (parse (decode_utf8 (hex_to_bytes (codes hex))))
          λ parsed. and_then (as_record parsed) λ fields. and_then (get_string "t" fields) usable

-- The database as the pipeline sees it, with the process's activity.
pub record IngestState (D : Type 0) : Type 0 where
  pub db : SweepDb D
  pub issuances : Issuances
  pub activity : ActivityRegistry

module _ {D : Type 0} where
  unfoldable pub capture_ticker :
      (String → Option String) → IssuanceRecord → IngestState D → IngestState D
  capture_ticker fetch i s = elim i.kind [
    | iou ↦ s
    | mpt ↦ elim (and_then (and_then i.mpt_issuance_id non_empty) fetch) [
      | none ↦ s
      | some ticker ↦ record s { issuances = set_ticker i.id (some ticker) s.issuances }
    ]
  ]

  -- The issuer's account, and the job of its sweep, reclaimed where a sweep before was left.
  unfoldable pub enqueue_sweep : IssuanceRecord → String → SweepDb D → SweepDb D
  enqueue_sweep i account db = record db {
    archive = record db.archive { accounts = ensure_account account db.archive.accounts };
    jobs =
        reclaim_stale (some i.id)
          (enqueue i.id account (some i.backfill_from_ledger) none issuer db.jobs);
  }

abbrev pub is_completed : BackfillStatus → Bool
is_completed completed = true
is_completed _ = false

-- A template literal prints null as a word.
abbrev printed : Option String → String
printed none = "null"
printed (some s) = s

-- What the activity registry shows.
unfoldable pub activity_label : (ℕ → String) → IssuanceRecord → String
activity_label print i = template ("backfilling " ∷ label ∷ [])
  where
    label : String
    label = elim i.kind [
      | mpt ↦ or_else i.mpt_issuance_id (print i.id)
      | iou ↦ template (printed i.currency ∷ "/" ∷ printed i.issuer_account ∷ [])
    ]

-- What a pipeline is given besides the tables.
pub record IngestOptions (D : Type 0) : Type 0 where
  pub ledger_entry : String → Option Record
  pub decode_utf8 : List ℕ → String
  pub parse : String → Option Value
  pub encode : List ℕ → Option String
  pub print : ℕ → String
  pub sweep : TrackedIssuance → SweepOptions D
  pub count_deltas : ℕ → D → ℕ
  pub started : String
  pub finished_at : String

abbrev nothing_done : IngestSummary
nothing_done = record {
  strategy = "issuer_sweep";
  discovered = 0;
  jobs_processed = 0;
  delta_rows = 0;
  high_water = none;
}

module _ {D : Type 0} (o : IngestOptions D) where
  unfoldable pub summary_of : IssuanceRecord → ℕ → Option ℕ → SweepDb D → IngestSummary
  summary_of i processed high_water db = record {
    strategy = "issuer_sweep";
    discovered = length (keep_if (λ m. m.issuance_id == i.id) db.account_issuance);
    jobs_processed = processed;
    delta_rows = o.count_deltas i.id db.deltas;
    high_water = high_water;
  }

  abbrev answer : IssuanceRecord → ℕ → Ending → SweepDb D → Ingestion
  answer i high_water finished db = ingested (summary_of i 1 (some high_water) db)
  answer i high_water stopped db = ingested (summary_of i 1 (some high_water) db)
  answer i high_water failed db = thrown
  answer i high_water crashed db = killed

  -- The sweep, while the registry shows it.
  unfoldable pub tracked_sweep :
      ℕ → IssuanceRecord → BackfillJob → IngestState D → IngestState D × Ingestion
  unfolding summary_of
  tracked_sweep pages i job s =
      let (registry, (p, ending)) =
        track o.started o.finished_at ActivityKind.backfill (some (activity_label o.print i))
          (λ r. (r, run_issuer_backfill (o.sweep (tracked_issuance i)) i.id job pages s.db))
          s.activity in
      (record s { db = p.db; activity = registry }, answer i p.high_water ending p.db)

  -- The job is swept unless it is completed.
  unfoldable pub sweep_unless_completed :
      ℕ → IssuanceRecord → BackfillJob → IngestState D → IngestState D × Ingestion
  unfolding tracked_sweep summary_of
  sweep_unless_completed pages i job s =
      if is_completed job.status
      then (s, ingested (summary_of i 0 none s.db))
      else tracked_sweep pages i job s

  -- `getByAccount(…)!`
  unfoldable pub sweep_job : ℕ → IssuanceRecord → String → IngestState D → IngestState D × Ingestion
  unfolding sweep_unless_completed
  sweep_job pages i account s = elim (get_by_account i.id account s.db.jobs.rows) [
    | none ↦ (s, thrown)
    | some job ↦ sweep_unless_completed pages i job s
  ]

  unfoldable pub ingest_for :
      ℕ → IssuanceRecord → String → IngestState D → IngestState D × Ingestion
  unfolding capture_ticker fetch_mpt_ticker enqueue_sweep sweep_job
  ingest_for pages i account s =
      let named = capture_ticker (fetch_mpt_ticker o.ledger_entry o.decode_utf8 o.parse) i s in
      sweep_job pages i account (record named { db = enqueue_sweep i account named.db })

  -- `ingestIssuance`, with what `shouldStop` says first, for at most `pages` pages.
  unfoldable pub ingest_issuance :
      ℕ → Bool → IssuanceRecord → IngestState D → IngestState D × Ingestion
  unfolding issuer_of ingest_for
  ingest_issuance pages true i s = (s, ingested nothing_done)
  ingest_issuance pages false i s = elim (issuer_of o.encode i) [
    | none ↦ (s, thrown)
    | some account ↦ ingest_for pages i account s
  ]
