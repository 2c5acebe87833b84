-- ===== src/Tests/Ingesting.antt =====
-- ingestIssuance at a completed job, with an upstream that answers nothing.
use xrpl_registrar.Common.{ℕ, String, refl, true, false, Option, none, some, List, [], ◌∷◌}
use xrpl_registrar.Common.Text.{eq}
use xrpl_registrar.Admin.Activity.{KindState, ActivityRegistry}
use xrpl_registrar.Admin.Orchestrator.{IngestOptions, IngestState, ingest_issuance, issuer_of}
use xrpl_registrar.Admin.Orchestrator.Done.{IsDone, ingest_issuance-completed}
use xrpl_registrar.Backfill.Sweep.{SweepOptions}
use xrpl_registrar.Db.Issuances.{IssuanceRecord, mpt}
use xrpl_registrar.Db.Jobs.{BackfillJob, completed, issuer, get_by_account}
use xrpl_registrar.Discovery.Earliest.{issuer_sweep}
use xrpl_registrar.Reconcile.Incremental.{TrackedIssuance}
use xrpl_registrar.Xrpl.Mpt.{decode_mpt_issuer}

abbrev idle_kind : KindState
idle_kind = record { active = 0; last_started_at = none; last_finished_at = none; detail = none }

abbrev registry : ActivityRegistry
registry = record { backfill = idle_kind; discovery = idle_kind }

abbrev token : IssuanceRecord
token = record {
  id = 1;
  kind = mpt;
  mpt_issuance_id = some "00000005AB";
  currency = none;
  issuer_account = none;
  ticker = none;
  backfill_from_ledger = 3;
  enabled = true;
  created_at = "now";
}

abbrev swept : BackfillJob
swept = record {
  id = 4;
  address = "rIssuer";
  issuance_id = 1;
  from_ledger = some 3;
  to_ledger = none;
  last_marker = none;
  status = completed;
  kind = issuer;
  tx_count = 2;
}

abbrev state : IngestState ℕ
state = record {
  db = record {
    archive = record {
      transactions = [];
      accounts = ("rIssuer", none) ∷ [];
      account_transactions = [];
    };
    deltas = 2;
    jobs = record { rows = swept ∷ []; next_id = 5 };
    coverage = record { address = "rIssuer"; from_ledger = 3; to_ledger = 9 } ∷ [];
    account_issuance =
        record {
          address = "rAlice";
          issuance_id = 1;
          discovered_via = issuer_sweep;
          first_acquisition_ledger = some 7;
        }
        ∷ [];
  };
  issuances = record { rows = token ∷ []; next_id = 2 };
  activity = registry;
}

abbrev nothing_upstream : TrackedIssuance → SweepOptions ℕ
nothing_upstream i = record {
  upstream = λ request. none;
  page_limit = none;
  map_entry = λ e account from. none;
  derive_deltas = λ hash meta n. n;
  should_stop = λ marker. false;
}

abbrev address_of : List ℕ → Option String
address_of bytes = some "rIssuer"

abbrev options : IngestOptions ℕ
options = record {
  ledger_entry = λ id. none;
  decode_utf8 = λ bytes. "";
  parse = λ text. none;
  encode = address_of;
  print = λ n. "1";
  sweep = nothing_upstream;
  count_deltas = λ id n. n;
  started = "1";
  finished_at = "2";
}

ingest_issuance-completed_example :
    IsDone options token "rIssuer" swept state (ingest_issuance options 0 false token state)
unfolding issuer_of get_by_account eq decode_mpt_issuer
ingest_issuance-completed_example =
    ingest_issuance-completed options 0 token "rIssuer" swept state refl refl refl
