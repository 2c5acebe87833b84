-- ===== src/LiveTail/Tail.antt =====
-- src/livetail/liveTail.ts: the loop over the tail's events. The events come in a list, with the
-- calls of `stop` between them; healing a gap, the derivation of deltas and the database behind it
-- are arguments. Close times are numbers, and the log lines are left out.
pub mod Progress
use xrpl_registrar.Common.{
  ℕ, ◌+◌, String, Bool, true, false, Option, none, some, List, ◌∷◌, ◌++◌, if◌then◌else◌, [],
}
use xrpl_registrar.Clio.Client.{Provenance}
use xrpl_registrar.Api.LedgerTime.{Ledgers, record_time}
use xrpl_registrar.Db.Transactions.{IngestTransaction, Archive, insert_transaction_rows}
use xrpl_registrar.LiveTail.GapTracker.{LedgerRange, GapTracker, create, observe}

pub record LedgerEvent : Type 0 where
  pub ledger_index : ℕ
  pub close_time_iso : Option ℕ

pub record TransactionEvent : Type 0 where
  pub hash : String
  pub ledger_index : ℕ
  pub tx_type : String
  pub tx_blob : List ℕ
  pub meta_blob : List ℕ
  pub accounts : List String
  pub provenance : Provenance

-- What the loop meets: an event of the source, or a call of `stop` before the next one.
pub data TailInput : Type 0 where
  ledger : LedgerEvent → TailInput
  transaction : TransactionEvent → TailInput
  stop : TailInput

unfoldable pub event_to_ingest : TransactionEvent → IngestTransaction
event_to_ingest ev = record {
  hash = ev.hash;
  ledger_index = ev.ledger_index;
  ctid = none;
  close_time_iso = none;
  tx_type = ev.tx_type;
  mpt_issuance_id = none;
  tx_blob = ev.tx_blob;
  meta_blob = ev.meta_blob;
  source_endpoint = ev.provenance.source_endpoint;
  fetched_at = ev.provenance.fetched_at;
  accounts = ev.accounts;
}

-- The database, with the derived deltas as the derivation keeps them.
pub record Store (Deltas : Type 0) : Type 0 where
  pub archive : Archive
  pub deltas : Deltas
  pub times : Ledgers

-- The object's state, with the calls of `onGap` and `onTransaction` in order.
pub record LiveTail (Deltas : Type 0) : Type 0 where
  pub store : Store Deltas
  pub tracker : GapTracker
  pub running : Bool
  pub ingested : ℕ
  pub gap_count : ℕ
  pub healed : List LedgerRange
  pub announced : List TransactionEvent

pub record LiveTailStats : Type 0 where
  pub ingested : ℕ
  pub gaps : ℕ
  pub last_contiguous_ledger : Option ℕ

module _ {D : Type 0} (derive_deltas : TransactionEvent → D → D)
    (on_gap : LedgerRange → Store D → Store D) where
  -- The constructor.
  unfoldable pub start_at : Option ℕ → Store D → LiveTail D
  start_at start_ledger store = record {
    store = store;
    tracker = create start_ledger;
    running = true;
    ingested = 0;
    gap_count = 0;
    healed = [];
    announced = [];
  }

  abbrev pub record_close : LedgerEvent → Store D → Store D
  record_close ev s = elim ev.close_time_iso [
    | none ↦ s
    | some iso ↦ record s { times = record_time ev.ledger_index iso s.times }
  ]

  -- `if (gap) { … await this.#onGap(gap); }`
  unfoldable pub handle_gap : Option LedgerRange → LiveTail D → LiveTail D
  handle_gap none s = s
  handle_gap (some gap) s = record s {
    gap_count = s.gap_count + 1;
    store = on_gap gap s.store;
    healed = s.healed ++ gap ∷ [];
  }

  unfoldable pub handle_ledger : LedgerEvent → LiveTail D → LiveTail D
  unfolding handle_gap
  handle_ledger ev s =
      let (tracker, gap) = observe s.tracker ev.ledger_index in
      handle_gap gap (record s { store = record_close ev s.store; tracker = tracker })

  unfoldable pub handle_transaction : TransactionEvent → LiveTail D → LiveTail D
  handle_transaction ev s = record s {
    store = record s.store {
      archive = insert_transaction_rows (event_to_ingest ev) s.store.archive;
      deltas = derive_deltas ev s.store.deltas;
    };
    ingested = s.ingested + 1;
    announced = s.announced ++ ev ∷ [];
  }

  -- The loop of `run`, from the test of `#running`.
  unfoldable pub run_tail : List TailInput → LiveTail D → LiveTail D
  unfolding handle_ledger handle_transaction
  run_tail [] s = s
  run_tail (ledger ev ∷ rest) s = if s.running then run_tail rest (handle_ledger ev s) else s
  run_tail (transaction ev ∷ rest) s =
      if s.running then run_tail rest (handle_transaction ev s) else s
  run_tail (stop ∷ rest) s = run_tail rest (record s { running = false })

  unfoldable pub stats : LiveTail D → LiveTailStats
  stats s = record { ingested = s.ingested; gaps = s.gap_count; last_contiguous_ledger = s.tracker }
