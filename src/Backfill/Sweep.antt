-- ===== src/Backfill/Sweep.antt =====
-- src/backfill/issuerSweep.ts: one sweep of the issuer's history that finds every holder and
-- backfills it. Each page's transaction is one step; a crash is a run that ends after some of its
-- pages.
pub mod Covered
pub mod Claimed
pub mod Complete
use xrpl_registrar.Common.{
  ℕ, zero, suc, ◌+◌, String, Bool, Option, none, some, List, ◌∷◌, map, ltb, if◌then◌else◌, or_else,
  length, [],
}
use xrpl_registrar.Common.Dict.{Dict, lookup, insert}
use xrpl_registrar.Common.Set.{add, add_each}
use xrpl_registrar.Common.Sort.{sort}
use xrpl_registrar.Common.Text.{eq, lt}
use xrpl_registrar.Backfill.Pages.{BinaryTxEntry, BackfillPage, PageRequest, page_request}
use xrpl_registrar.Backfill.Worker.{CoverageRow, Ending, finished, stopped, failed, crashed}
use xrpl_registrar.Clio.Client.{Provenance}
use xrpl_registrar.Db.Jobs.{
  BackfillJob, Jobs, checkpoint_job, complete_job, fail_job, stored_marker,
}
use xrpl_registrar.Db.Transactions.{
  IngestTransaction, Archive, upsert_account, insert_transaction_rows_many,
}
use xrpl_registrar.Discovery.Earliest.{Membership, issuer_sweep, upsert_membership}
use xrpl_registrar.Json.{Value, Record, as_record, get_string}
use xrpl_registrar.Reconcile.Incremental.{TrackedIssuance, DetectedHolder, holders_in_meta}
use xrpl_registrar.Xrpl.Hex.{hex_to_bytes}
use xrpl_registrar.Backfill.MapEntry.{MappedEntry}
use xrpl_registrar.Backfill.Holders.{
  SweepDb, record_holder, record_holders, claim_coverage, claimed_rows, coverage_floor,
  first_acquisition, members_of,
}
use xrpl_registrar.Common.BigInt.{codes}

pub record SweepOptions (D : Type 0) : Type 0 where
  pub upstream : PageRequest → Option BackfillPage
  pub page_limit : Option ℕ
  pub map_entry : BinaryTxEntry → String → Provenance → Option MappedEntry
  pub derive_deltas : String → Option Record → D → D
  pub should_stop : Option Value → Bool

-- What a run has done so far.
pub record Progress (D : Type 0) : Type 0 where
  pub db : SweepDb D
  pub ingested : ℕ
  pub high_water : ℕ

-- The map `firstLedger` and the mark `highWater`.
unfoldable pub lower_first : ℕ → String → Dict ℕ → Dict ℕ
lower_first ledger account first = elim (lookup account first) [
  | none ↦ insert account ledger first
  | some prev ↦ if ltb ledger prev then insert account ledger first else first
]

unfoldable pub first_in_row : String → ℕ → List String → Dict ℕ → Dict ℕ
first_in_row issuer ledger [] first = first
first_in_row issuer ledger (account ∷ rest) first =
    first_in_row issuer ledger rest
      (if eq account issuer then first else lower_first ledger account first)

unfoldable pub first_in_batch : String → List MappedEntry → Dict ℕ → Dict ℕ
first_in_batch issuer [] first = first
first_in_batch issuer (m ∷ ms) first =
    first_in_batch issuer ms (first_in_row issuer m.row.ledger_index m.row.accounts first)

unfoldable pub raise_mark : ℕ → List MappedEntry → ℕ
raise_mark mark [] = mark
raise_mark mark (m ∷ ms) =
    raise_mark (if ltb mark m.row.ledger_index then m.row.ledger_index else mark) ms

module _ {D : Type 0} (o : SweepOptions D) (issuance_id : ℕ) (job : BackfillJob) where
  unfoldable pub batch_of : Provenance → List BinaryTxEntry → List MappedEntry
  batch_of provenance [] = []
  batch_of provenance (e ∷ es) = elim (o.map_entry e job.address provenance) [
    | none ↦ batch_of provenance es
    | some m ↦ m ∷ batch_of provenance es
  ]

  unfoldable pub derive_batch : List MappedEntry → D → D
  derive_batch [] d = d
  derive_batch (m ∷ ms) d = derive_batch ms (o.derive_deltas m.row.hash m.meta d)

  -- The page's transaction, without what the final page adds; writing an empty batch is a no-op.
  unfoldable pub commit_batch : List MappedEntry → Option Value → SweepDb D → SweepDb D
  unfolding derive_batch
  commit_batch batch marker db =
      let stored = record db {
        archive = insert_transaction_rows_many (map (λ m. m.row) batch) db.archive;
        deltas = derive_batch batch db.deltas;
      } in
      let held =
        record_holders issuance_id (sort (λ a b. lt a.0 b.0) (first_in_batch job.address batch []))
          stored in
      record held { jobs = checkpoint_job job.id marker (length batch) held.jobs }

  unfoldable pub commit_last : ℕ → SweepDb D → SweepDb D
  commit_last high_water db =
      let claimed =
        claim_coverage issuance_id job.address (or_else job.from_ledger 0) high_water db in
      record claimed { jobs = complete_job job.id claimed.jobs }

  -- `fromLedger > 0 ? fromLedger : undefined` is page_request's test.
  abbrev pub sweep_request : Option Value → PageRequest
  sweep_request marker =
      page_request
        (record {
          account = job.address;
          from_ledger = job.from_ledger;
          to_ledger = none;
          start_marker = job.last_marker;
          limit = o.page_limit;
        })
        marker

  -- The batch of a page, its transaction and the counters.
  unfoldable pub after_page : BackfillPage → Progress D → Progress D
  unfolding batch_of commit_batch
  after_page page p =
      let batch = batch_of page.provenance page.entries in
      record {
        db = commit_batch batch page.marker p.db;
        ingested = p.ingested + length batch;
        high_water = raise_mark p.high_water batch;
      }

  -- Where the page's transaction is stopped, the mark has been raised nevertheless.
  unfoldable pub stop_at : BackfillPage → Progress D → Progress D
  unfolding batch_of
  stop_at page p = record p {
    high_water = raise_mark p.high_water (batch_of page.provenance page.entries);
  }

  unfoldable pub finish_sweep : Progress D → Progress D
  unfolding commit_last
  finish_sweep p = record p { db = commit_last p.high_water p.db }

  abbrev fail_sweep : Progress D → Progress D
  fail_sweep p = record p { db = record p.db { jobs = fail_job job.id p.db.jobs } }

  -- After the commit of a page: the end, or the next page by its marker.
  unfoldable pub next_page :
      Option Value
      → Progress D
      → (Option Value → Progress D → Progress D × Ending)
      → Progress D × Ending
  unfolding finish_sweep
  next_page none p next = (finish_sweep p, finished)
  next_page (some marker) p next = next (some marker) p

  unfoldable pub sweep_step :
      Option Value
      → Option BackfillPage
      → Progress D
      → (Option Value → Progress D → Progress D × Ending)
      → Progress D × Ending
  unfolding after_page stop_at next_page
  sweep_step marker none p next = (fail_sweep p, failed)
  sweep_step marker (some page) p next =
      if o.should_stop (stored_marker marker)
      then (stop_at page p, stopped)
      else next_page page.marker (after_page page p) next

  -- The loop from a marker for at most `pages` pages.
  unfoldable pub sweep_pages : ℕ → Option Value → Progress D → Progress D × Ending
  sweep_pages zero marker p = (p, crashed)
  sweep_pages (suc pages) marker p =
      sweep_step marker (o.upstream (sweep_request marker)) p (λ next q. sweep_pages pages next q)

  -- `runIssuerBackfill`, for at most `pages` pages.
  unfoldable pub run_issuer_backfill : ℕ → SweepDb D → Progress D × Ending
  run_issuer_backfill pages db =
      sweep_pages pages job.last_marker
        (record { db = db; ingested = 0; high_water = or_else job.from_ledger 0 })
