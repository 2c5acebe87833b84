-- ===== src/Tests/Resuming.antt =====
-- src/backfill/worker.ts at concrete inputs: three pages, and a crash after the first.
use xrpl_registrar.Common.{
  ℕ, ◌+◌, String, ◌≡◌, refl, Bool, true, false, Option, none, some, [], ◌∷◌, arith,
}
use xrpl_registrar.Common.Text.{eq}
use xrpl_registrar.Backfill.MapEntry.{MappedEntry}
use xrpl_registrar.Backfill.Holders.{SweepDb}
use xrpl_registrar.Backfill.Sweep.{
  SweepOptions, run_issuer_backfill, sweep_pages, sweep_step, next_page, batch_of,
}
use xrpl_registrar.Backfill.Sweep.Covered.{met}
use xrpl_registrar.Backfill.Sweep.Claimed.{covered}
use xrpl_registrar.Backfill.Sweep.Complete.{met_pages, run_issuer_backfill-covers}
use xrpl_registrar.Json.{Value, Record, boolean}
use xrpl_registrar.Clio.Client.{Provenance}
use xrpl_registrar.Backfill.Pages.{BinaryTxEntry, BackfillPage, PageRequest, page_request}
use xrpl_registrar.Db.Jobs.{BackfillJob, account, running, get_row}
use xrpl_registrar.Db.Transactions.{IngestTransaction}
use xrpl_registrar.Backfill.Worker.{
  World, Options, finished, crashed, run_pages, run_job, page_step, after_commit,
}
use xrpl_registrar.Backfill.Worker.Resume.{persisted, run_job-resume}
use xrpl_registrar.Backfill.Worker.Claims.{AddsCoverage, run_pages-AddsCoverage}

abbrev source : Provenance
source = record { source_endpoint = "http://clio"; fetched_at = "2026-01-01T00:00:00Z" }

abbrev page_of : ℕ → Option Value → BackfillPage
page_of ledger marker = record {
  entries = record { tx_blob = "12"; meta_blob = "34"; ledger_index = ledger } ∷ [];
  marker = marker;
  provenance = source;
}

-- The marker leads from page to page.
abbrev answer_to : Option Value → Option BackfillPage
answer_to none = some (page_of 10 (some (boolean true)))
answer_to (some (boolean true)) = some (page_of 11 (some (boolean false)))
answer_to (some _) = some (page_of 12 none)

abbrev pages : PageRequest → Option BackfillPage
pages req = answer_to req.marker

abbrev map_entry : BinaryTxEntry → String → Provenance → IngestTransaction
map_entry e address from = record {
  hash = e.tx_blob;
  ledger_index = e.ledger_index;
  ctid = none;
  close_time_iso = none;
  tx_type = "Payment";
  mpt_issuance_id = none;
  tx_blob = [];
  meta_blob = [];
  source_endpoint = from.source_endpoint;
  fetched_at = from.fetched_at;
  accounts = address ∷ [];
}

abbrev keeps : BinaryTxEntry → Bool
keeps e = true

-- The deltas count the transactions.
abbrev counts : IngestTransaction → ℕ → ℕ
counts tx n = n + 1

abbrev never_stops : ℕ → Option Value → Bool
never_stops issuance marker = false

abbrev options : Options ℕ
options = record {
  upstream = pages;
  page_limit = none;
  map_entry = map_entry;
  keep = keeps;
  derive_deltas = counts;
  should_stop = never_stops;
}

abbrev alice_job : BackfillJob
alice_job = record {
  id = 4;
  address = "rAlice";
  issuance_id = 1;
  from_ledger = none;
  to_ledger = none;
  last_marker = none;
  status = running;
  kind = account;
  tx_count = 0;
}

abbrev before : World ℕ
before = record {
  archive = record { transactions = []; accounts = []; account_transactions = [] };
  deltas = 0;
  jobs = record { rows = alice_job ∷ []; next_id = 5 };
  coverage = [];
}

alice_row : get_row 4 before.jobs.rows ≡ some alice_job
unfolding get_row
alice_row = refl

alice_crashes : (run_job options 1 alice_job before).1 ≡ crashed
unfolding run_job run_pages page_step after_commit page_request
alice_crashes = refl

run_job-resume_example :
    (job' : BackfillJob) × (get_row 4 (run_job options 1 alice_job before).0.jobs.rows ≡ some job')
    × (persisted options (run_job options 2 job' (run_job options 1 alice_job before).0)
        ≡ persisted options (run_job options 3 alice_job before))
run_job-resume_example = run_job-resume options 1 2 alice_job before alice_row refl alice_crashes

run_pages-AddsCoverage_example :
    AddsCoverage options alice_job before (run_pages options 3 alice_job none 0 before)
run_pages-AddsCoverage_example = run_pages-AddsCoverage options 3 alice_job none 0 before

-- Alice holds what the issuer issues.
abbrev sweep_entry : BinaryTxEntry → String → Provenance → Option MappedEntry
sweep_entry e issuer from = some (record {
  row = record (map_entry e issuer from) { accounts = issuer ∷ "rAlice" ∷ [] };
  meta = none;
})

abbrev keeps_deltas : String → Option Record → ℕ → ℕ
keeps_deltas hash meta n = n

abbrev goes_on : Option Value → Bool
goes_on marker = false

abbrev sweep_options : SweepOptions ℕ
sweep_options = record {
  upstream = pages;
  page_limit = none;
  map_entry = sweep_entry;
  derive_deltas = keeps_deltas;
  should_stop = goes_on;
}

abbrev issuer_job : BackfillJob
issuer_job = record alice_job { address = "rIssuer" }

abbrev before_sweep : SweepDb ℕ
before_sweep = record {
  archive = record { transactions = []; accounts = []; account_transactions = [] };
  deltas = 0;
  jobs = record { rows = issuer_job ∷ []; next_id = 5 };
  coverage = [];
  account_issuance = [];
}

sweep_ends :
    run_issuer_backfill sweep_options 1 issuer_job 3 before_sweep
    ≡ ((run_issuer_backfill sweep_options 1 issuer_job 3 before_sweep).0, finished)
unfolding run_issuer_backfill sweep_pages sweep_step next_page page_request
sweep_ends = refl

not_issuer : eq "rAlice" "rIssuer" ≡ false
unfolding eq
not_issuer = refl

alice_met : met_pages sweep_options 1 issuer_job 3 none "rAlice" 11 ≡ true
unfolding met_pages met batch_of page_request eq
alice_met = refl

run_issuer_backfill-covers_example :
    covered "rAlice" 11
      (run_issuer_backfill sweep_options 1 issuer_job 3 before_sweep).0.db.coverage
    ≡ true
run_issuer_backfill-covers_example =
    run_issuer_backfill-covers sweep_options 1 issuer_job 3 before_sweep
      (run_issuer_backfill sweep_options 1 issuer_job 3 before_sweep).0 "rAlice" 11 sweep_ends
      not_issuer (omega arith) alice_met
