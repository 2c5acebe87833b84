-- ===== src/Backfill/Worker.antt =====
-- src/backfill/worker.ts: one job, page by page. Each page's transaction is one step; a crash is a
-- run that ends after some of its pages. The mapping of an entry, the filter, the derivation of
-- deltas and the answer to "should this stop" are arguments, as they are options of the worker.
pub mod Claims
pub mod Resume
use xrpl_registrar.Common.{
  ℕ, zero, suc, String, Bool, Option, none, some, List, ◌∷◌, ◌++◌, map, ltb, if◌then◌else◌, or_else,
  length, keep_if, [],
}
use xrpl_registrar.Json.{Value}
use xrpl_registrar.Clio.Client.{Provenance}
use xrpl_registrar.Backfill.Pages.{
  BinaryTxEntry, BackfillPage, AccountTxPageQuery, PageRequest, page_request,
}
use xrpl_registrar.Db.Jobs.{
  BackfillJob, Jobs, stored_marker, checkpoint_job, complete_job, fail_job, get_row,
}
use xrpl_registrar.Db.Transactions.{IngestTransaction, Archive, insert_transaction_rows_many}

pub record CoverageRow : Type 0 where
  pub address : String
  pub from_ledger : ℕ
  pub to_ledger : ℕ

-- The database, with the derived deltas as the derivation keeps them.
pub record World (Deltas : Type 0) : Type 0 where
  pub archive : Archive
  pub deltas : Deltas
  pub jobs : Jobs
  pub coverage : List CoverageRow

pub data Ending : Type 0 where
  finished stopped failed crashed : Ending

-- The stop flag may change from page to page: it is asked of the issuance and the page's cursor.
-- An upstream request that fails answers `none`.
pub record Options (Deltas : Type 0) : Type 0 where
  pub upstream : PageRequest → Option BackfillPage
  pub page_limit : Option ℕ
  pub map_entry : BinaryTxEntry → String → Provenance → IngestTransaction
  pub keep : BinaryTxEntry → Bool
  pub derive_deltas : IngestTransaction → Deltas → Deltas
  pub should_stop : ℕ → Option Value → Bool

unfoldable pub max_ledger_of : ℕ → List BinaryTxEntry → ℕ
max_ledger_of m [] = m
max_ledger_of m (e ∷ es) = max_ledger_of (if ltb m e.ledger_index then e.ledger_index else m) es

module _ {D : Type 0} (o : Options D) where
  -- `page.entries.filter(keep).map(mapEntry)`
  unfoldable pub mapped_rows : BackfillJob → BackfillPage → List IngestTransaction
  mapped_rows job page =
      map (λ e. o.map_entry e job.address page.provenance) (keep_if o.keep page.entries)

  unfoldable pub derive_all : List IngestTransaction → D → D
  derive_all [] d = d
  derive_all (m ∷ ms) d = derive_all ms (o.derive_deltas m d)

  -- The page's transaction, where it is not stopped.
  unfoldable pub commit_page : BackfillJob → BackfillPage → World D → World D
  commit_page job page w = record w {
    archive = insert_transaction_rows_many (mapped_rows job page) w.archive;
    deltas = derive_all (mapped_rows job page) w.deltas;
    jobs = checkpoint_job job.id page.marker (length (mapped_rows job page)) w.jobs;
  }

  -- What the final page adds to it.
  unfoldable pub commit_final : BackfillJob → ℕ → World D → World D
  commit_final job max_ledger w = record w {
    jobs = complete_job job.id w.jobs;
    coverage =
        w.coverage
        ++ record {
          address = job.address;
          from_ledger = or_else job.from_ledger 0;
          to_ledger = max_ledger;
        }
          ∷ [];
  }

  abbrev pub query_of : BackfillJob → AccountTxPageQuery
  query_of job = record {
    account = job.address;
    from_ledger = job.from_ledger;
    to_ledger = job.to_ledger;
    start_marker = job.last_marker;
    limit = o.page_limit;
  }

  -- After the commit of a page: the end, or the next page by its marker.
  unfoldable pub after_commit :
      BackfillJob
      → ℕ
      → World D
      → Option Value
      → (Option Value → ℕ → World D → World D × Ending)
      → World D × Ending
  after_commit job reached w none next = (commit_final job reached w, finished)
  after_commit job reached w (some marker) next = next (some marker) reached w

  -- One round, from what Clio answers.
  unfoldable pub page_step :
      BackfillJob
      → Option Value
      → ℕ
      → World D
      → Option BackfillPage
      → (Option Value → ℕ → World D → World D × Ending)
      → World D × Ending
  unfolding commit_page
  page_step job marker max_ledger w none next = (record w { jobs = fail_job job.id w.jobs }, failed)
  page_step job marker max_ledger w (some page) next =
      if o.should_stop job.issuance_id (stored_marker marker)
      then (w, stopped)
      else after_commit job (max_ledger_of max_ledger page.entries) (commit_page job page w)
          page.marker next

  -- The loop of `runJob` from a marker, for at most `pages` pages.
  unfoldable pub run_pages : ℕ → BackfillJob → Option Value → ℕ → World D → World D × Ending
  run_pages zero job marker max_ledger w = (w, crashed)
  run_pages (suc pages) job marker max_ledger w =
      page_step job marker max_ledger w (o.upstream (page_request (query_of job) marker))
        (λ next reached w'. run_pages pages job next reached w')

  unfoldable pub run_job : ℕ → BackfillJob → World D → World D × Ending
  run_job pages job w = run_pages pages job job.last_marker (or_else job.from_ledger 0) w
