-- ===== src/LiveTail/Tail/Progress.antt =====
-- What the loop of liveTail.ts has done when it ends.
use xrpl_registrar.Common.{
  ℕ, ◌+◌, ◌≡◌, refl, sym, ap, ◌∙◌, Bool, true, false, Option, none, some, List, [], ◌∷◌, ◌++◌,
  arith, if◌then◌else◌, length,
}
use mathlib.Core.List.{append-nil, append_assoc}
use xrpl_registrar.Api.LedgerTime.{record_time}
use xrpl_registrar.Db.Transactions.{insert_transaction_rows}
use xrpl_registrar.LiveTail.GapTracker.{LedgerRange, GapTracker, observe}
use xrpl_registrar.LiveTail.GapTracker.Coverage.{observe_all, push_gap}
use xrpl_registrar.LiveTail.Tail.{
  LedgerEvent, TransactionEvent, TailInput, ledger, transaction, stop, Store, LiveTail, start_at,
  handle_gap, handle_ledger, handle_transaction, run_tail, record_close, event_to_ingest,
}

-- The ledgers and the transactions that come before the first call of `stop`.
unfoldable pub ledgers_before : List TailInput → List ℕ
ledgers_before [] = []
ledgers_before (ledger ev ∷ rest) = ev.ledger_index ∷ ledgers_before rest
ledgers_before (transaction ev ∷ rest) = ledgers_before rest
ledgers_before (stop ∷ rest) = []

unfoldable pub transactions_before : List TailInput → List TransactionEvent
transactions_before [] = []
transactions_before (ledger ev ∷ rest) = transactions_before rest
transactions_before (transaction ev ∷ rest) = ev ∷ transactions_before rest
transactions_before (stop ∷ rest) = []

-- What the tail has to do to the database: the close times that it is told, the gaps to heal and the
-- transactions to take in, in order.
pub data Work : Type 0 where
  closes_at : (ledger_index close_time : ℕ) → Work
  heals : LedgerRange → Work
  takes_in : TransactionEvent → Work

abbrev pub heals_if : Option LedgerRange → List Work → List Work
heals_if none rest = rest
heals_if (some gap) rest = heals gap ∷ rest

abbrev pub closes_if : ℕ → Option ℕ → List Work → List Work
closes_if ledger_index none rest = rest
closes_if ledger_index (some iso) rest = closes_at ledger_index iso ∷ rest

-- The work that comes before the first call of `stop`, from the last contiguous ledger.
unfoldable pub work_before : Option ℕ → List TailInput → List Work
work_before last [] = []
work_before last (ledger ev ∷ rest) =
    let (next, gap) = observe last ev.ledger_index in
    closes_if ev.ledger_index ev.close_time_iso (heals_if gap (work_before next rest))
work_before last (transaction ev ∷ rest) = takes_in ev ∷ work_before last rest
work_before last (stop ∷ rest) = []

if_true {ℓ} : {A : Type ℓ} (b : Bool) (x y : A) → b ≡ true → (if b then x else y) ≡ x
if_true b x y h = rw h refl

if_false {ℓ} : {A : Type ℓ} (b : Bool) (x y : A) → b ≡ false → (if b then x else y) ≡ y
if_false b x y h = rw h refl

module _ {D : Type 0} (derive_deltas : TransactionEvent → D → D)
    (on_gap : LedgerRange → Store D → Store D) where
  -- A piece of work on the database: the statements of the repositories, and the two arguments.
  abbrev pub perform : Work → Store D → Store D
  perform (closes_at ledger_index iso) store = record store {
    times = record_time ledger_index iso store.times;
  }
  perform (heals gap) store = on_gap gap store
  perform (takes_in ev) store = record store {
    archive = insert_transaction_rows (event_to_ingest ev) store.archive;
    deltas = derive_deltas ev store.deltas;
  }

  unfoldable pub perform_all : List Work → Store D → Store D
  perform_all [] store = store
  perform_all (w ∷ ws) store = perform_all ws (perform w store)

  -- The tracker, the gaps handed to `onGap` and their count, and the transactions taken in and
  -- their count.
  abbrev pub Summary : Type 0
  Summary = GapTracker × List LedgerRange × ℕ × ℕ × List TransactionEvent

  abbrev pub summary : LiveTail D → Summary
  summary s = (s.tracker, s.healed, s.gap_count, s.ingested, s.announced)

  -- What a run should add to a summary.
  abbrev pub extend : LiveTail D → GapTracker × List LedgerRange → List TransactionEvent → Summary
  extend s (tracker, gaps) txs = (
    tracker,
    s.healed ++ gaps,
    s.gap_count + length gaps,
    s.ingested + length txs,
    s.announced ++ txs,
  )

  run_tail-stopped :
      (inputs : List TailInput) (s : LiveTail D)
      → s.running ≡ false
      → summary (run_tail derive_deltas on_gap inputs s) ≡ summary s
  unfolding run_tail
  run_tail-stopped [] s h = refl
  run_tail-stopped (ledger ev ∷ rest) s h = ap summary (if_false s.running _ s h)
  run_tail-stopped (transaction ev ∷ rest) s h = ap summary (if_false s.running _ s h)
  run_tail-stopped (stop ∷ rest) s h = run_tail-stopped rest (record s { running = false }) refl

  extend_none : (s : LiveTail D) → summary s ≡ extend s (s.tracker, []) []
  extend_none s = ground (arith, append-nil s.healed, append-nil s.announced)

  handle_gap-extend :
      (g : Option LedgerRange) (s : LiveTail D) (t : GapTracker) (gaps : List LedgerRange)
      (txs : List TransactionEvent)
      → extend (handle_gap derive_deltas on_gap g s) (t, gaps) txs
        ≡ extend s (t, push_gap g gaps) txs
  unfolding handle_gap
  handle_gap-extend none s t gaps txs = refl
  handle_gap-extend (some g) s t gaps txs = ground (arith, append_assoc s.healed (g ∷ []) gaps)

  handle_gap-keeps :
      (g : Option LedgerRange) (s : LiveTail D)
      → ((handle_gap derive_deltas on_gap g s).tracker ≡ s.tracker)
        × ((handle_gap derive_deltas on_gap g s).running ≡ s.running)
  unfolding handle_gap
  handle_gap-keeps none s = (refl, refl)
  handle_gap-keeps (some g) s = (refl, refl)

  handle_ledger-keeps :
      (ev : LedgerEvent) (s : LiveTail D)
      → ((handle_ledger derive_deltas on_gap ev s).tracker ≡ (observe s.tracker ev.ledger_index).0)
        × ((handle_ledger derive_deltas on_gap ev s).running ≡ s.running)
  unfolding handle_ledger
  handle_ledger-keeps ev s = handle_gap-keeps (observe s.tracker ev.ledger_index).1 _

  handle_ledger-extend :
      (ev : LedgerEvent) (s : LiveTail D) (t : GapTracker) (gaps : List LedgerRange)
      (txs : List TransactionEvent)
      → extend (handle_ledger derive_deltas on_gap ev s) (t, gaps) txs
        ≡ extend s (t, push_gap (observe s.tracker ev.ledger_index).1 gaps) txs
  unfolding handle_ledger
  handle_ledger-extend ev s t gaps txs =
      handle_gap-extend (observe s.tracker ev.ledger_index).1 _ t gaps txs

  handle_transaction-extend :
      (ev : TransactionEvent) (s : LiveTail D) (t : GapTracker) (gaps : List LedgerRange)
      (txs : List TransactionEvent)
      → extend (handle_transaction derive_deltas on_gap ev s) (t, gaps) txs
        ≡ extend s (t, gaps) (ev ∷ txs)
  unfolding handle_transaction
  handle_transaction-extend ev s t gaps txs = ground (arith, append_assoc s.announced (ev ∷ []) txs)

  handle_transaction-keeps :
      (ev : TransactionEvent) (s : LiveTail D)
      → ((handle_transaction derive_deltas on_gap ev s).tracker ≡ s.tracker)
        × ((handle_transaction derive_deltas on_gap ev s).running ≡ s.running)
  unfolding handle_transaction
  handle_transaction-keeps ev s = (refl, refl)

  run_tail-summary :
      (inputs : List TailInput) (s : LiveTail D)
      → s.running ≡ true
      → summary (run_tail derive_deltas on_gap inputs s)
        ≡ extend s (observe_all s.tracker (ledgers_before inputs)) (transactions_before inputs)
  unfolding run_tail observe_all ledgers_before transactions_before
  run_tail-summary [] s h = extend_none s
  run_tail-summary (ledger ev ∷ rest) s h =
      ap summary (if_true s.running _ s h)
      ∙ run_tail-summary rest (handle_ledger derive_deltas on_gap ev s)
          ((handle_ledger-keeps ev s).1 ∙ h)
      ∙ ap
          (λ t.
            extend (handle_ledger derive_deltas on_gap ev s) (observe_all t (ledgers_before rest))
              (transactions_before rest))
          (handle_ledger-keeps ev s).0
      ∙ handle_ledger-extend ev s _ _ (transactions_before rest)
  run_tail-summary (transaction ev ∷ rest) s h =
      ap summary (if_true s.running _ s h)
      ∙ run_tail-summary rest (handle_transaction derive_deltas on_gap ev s)
          ((handle_transaction-keeps ev s).1 ∙ h)
      ∙ ap
          (λ t.
            extend (handle_transaction derive_deltas on_gap ev s)
              (observe_all t (ledgers_before rest)) (transactions_before rest))
          (handle_transaction-keeps ev s).0
      ∙ handle_transaction-extend ev s _ _ (transactions_before rest)
  run_tail-summary (stop ∷ rest) s h =
      run_tail-stopped rest (record s { running = false }) refl ∙ extend_none s

  run_tail-stopped_store :
      (inputs : List TailInput) (s : LiveTail D)
      → s.running ≡ false
      → (run_tail derive_deltas on_gap inputs s).store ≡ s.store
  unfolding run_tail
  run_tail-stopped_store [] s h = refl
  run_tail-stopped_store (ledger ev ∷ rest) s h = ap (λ t. t.store) (if_false s.running _ s h)
  run_tail-stopped_store (transaction ev ∷ rest) s h = ap (λ t. t.store) (if_false s.running _ s h)
  run_tail-stopped_store (stop ∷ rest) s h =
      run_tail-stopped_store rest (record s { running = false }) refl

  perform_all-heals_if :
      (g : Option LedgerRange) (ws : List Work) (s : LiveTail D)
      → perform_all (heals_if g ws) s.store
        ≡ perform_all ws (handle_gap derive_deltas on_gap g s).store
  unfolding handle_gap perform_all
  perform_all-heals_if none ws s = refl
  perform_all-heals_if (some g) ws s = refl

  perform_all-closes_if :
      (ev : LedgerEvent) (ws : List Work) (store : Store D)
      → perform_all (closes_if ev.ledger_index ev.close_time_iso ws) store
        ≡ perform_all ws (record_close derive_deltas on_gap ev store)
  unfolding perform_all
  perform_all-closes_if ev ws store = ground arith

  perform_all-handle_ledger :
      (ev : LedgerEvent) (ws : List Work) (s : LiveTail D)
      → perform_all
          (closes_if ev.ledger_index ev.close_time_iso
            (heals_if (observe s.tracker ev.ledger_index).1 ws))
          s.store
        ≡ perform_all ws (handle_ledger derive_deltas on_gap ev s).store
  unfolding handle_ledger
  perform_all-handle_ledger ev ws s =
      perform_all-closes_if ev (heals_if (observe s.tracker ev.ledger_index).1 ws) s.store
      ∙ perform_all-heals_if (observe s.tracker ev.ledger_index).1 ws _

  handle_transaction-store :
      (ev : TransactionEvent) (s : LiveTail D)
      → (handle_transaction derive_deltas on_gap ev s).store ≡ perform (takes_in ev) s.store
  unfolding handle_transaction
  handle_transaction-store ev s = refl

  run_tail-store :
      (inputs : List TailInput) (s : LiveTail D)
      → s.running ≡ true
      → (run_tail derive_deltas on_gap inputs s).store
        ≡ perform_all (work_before s.tracker inputs) s.store
  unfolding run_tail work_before perform_all
  run_tail-store [] s h = refl
  run_tail-store (ledger ev ∷ rest) s h =
      ap (λ t. t.store) (if_true s.running _ s h)
      ∙ run_tail-store rest (handle_ledger derive_deltas on_gap ev s)
          ((handle_ledger-keeps ev s).1 ∙ h)
      ∙ ap (λ t. perform_all (work_before t rest) (handle_ledger derive_deltas on_gap ev s).store)
          (handle_ledger-keeps ev s).0
      ∙ sym (perform_all-handle_ledger ev _ s)
  run_tail-store (transaction ev ∷ rest) s h =
      ap (λ t. t.store) (if_true s.running _ s h)
      ∙ run_tail-store rest (handle_transaction derive_deltas on_gap ev s)
          ((handle_transaction-keeps ev s).1 ∙ h)
      ∙ ap
          (λ t.
            perform_all (work_before t rest) (handle_transaction derive_deltas on_gap ev s).store)
          (handle_transaction-keeps ev s).0
      ∙ ap (perform_all (work_before s.tracker rest)) (handle_transaction-store ev s)
  run_tail-store (stop ∷ rest) s h = run_tail-stopped_store rest (record s { running = false }) refl

  -- However the source's events and a call of `stop` interleave, what comes before the stop is
  -- what the tail has done: the tracker stands where the ledgers take it from the start ledger,
  -- each gap that they reveal has been handed to `onGap` once and in order, each transaction has
  -- been announced once and in order, the counters are their numbers, and the database is what
  -- recording the close times, healing the gaps and inserting the transactions with their deltas
  -- makes of the first one, each once and in the order of the events.
  pub run_tail-observe_all :
      (start_ledger : Option ℕ) (store : Store D) (inputs : List TailInput)
      → let s =
          run_tail derive_deltas on_gap inputs (start_at derive_deltas on_gap start_ledger store) in
        (s.tracker ≡ (observe_all start_ledger (ledgers_before inputs)).0)
        × (s.healed ≡ (observe_all start_ledger (ledgers_before inputs)).1)
        × (s.gap_count ≡ length s.healed)
        × (s.announced ≡ transactions_before inputs)
        × (s.ingested ≡ length s.announced)
        × (s.store ≡ perform_all (work_before start_ledger inputs) store)
  unfolding start_at
  run_tail-observe_all start_ledger store inputs =
      let e = run_tail-summary inputs (start_at derive_deltas on_gap start_ledger store) refl in
      let healed = ap (λ (x : Summary). x.1) e in
      let announced = ap (λ (x : Summary). x.4) e in
      (
        ap (λ (x : Summary). x.0) e,
        healed,
        ap (λ (x : Summary). x.2) e ∙ omega arith ∙ ap length (sym healed),
        announced,
        ap (λ (x : Summary). x.3) e ∙ omega arith ∙ ap length (sym announced),
        run_tail-store inputs (start_at derive_deltas on_gap start_ledger store) refl,
      )
