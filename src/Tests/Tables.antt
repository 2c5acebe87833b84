-- ===== src/Tests/Tables.antt =====
-- src/db at concrete inputs.
use xrpl_registrar.Common.{
  ℕ, ◌*◌, ◌≤◌, String, ◌≡◌, refl, Option, none, some, List, [], ◌∷◌, arith, length, All,
}
use xrpl_registrar.Common.Text.{eq}
use xrpl_registrar.Db.Chunks.{flatten, chunks, chunks_lem}
use xrpl_registrar.Db.Transactions.{
  IngestTransaction, Archive, insert_each, insert_transaction_rows_many,
}
use xrpl_registrar.Db.Batches.{row_of, kept_or, first_row, insert_transaction_rows_many-row_of}
use xrpl_registrar.Db.Jobs.{BackfillJob, Jobs, account, pending, BackfillKind}
use xrpl_registrar.Db.Jobs.Claims.{claim_all, Distinct, claim_all-Distinct}
use xrpl_registrar.Db.Jobs.Keys.{
  Statement, enqueues, claims, checkpoints, completes, fails, reclaims, execute_all, IsKeyed,
  execute_all-IsKeyed,
}

abbrev rows : List String
rows = "a" ∷ "b" ∷ "c" ∷ []

chunks_lem_example :
    (flatten (chunks 30000 rows) ≡ rows) × All (λ c. length c * 30000 ≤ 65535) (chunks 30000 rows)
chunks_lem_example = chunks_lem 30000 rows (omega arith) (omega arith)

abbrev pub waiting : ℕ → String → BackfillJob
waiting id address = record {
  id = id;
  address = address;
  issuance_id = 1;
  from_ledger = none;
  to_ledger = none;
  last_marker = none;
  status = pending;
  kind = account;
  tx_count = 0;
}

abbrev two_jobs : Jobs
two_jobs = record { rows = waiting 1 "rAlice" ∷ waiting 2 "rBob" ∷ []; next_id = 3 }

abbrev three_claims : List (Option ℕ × BackfillKind)
three_claims = (some 1, account) ∷ (none, account) ∷ (none, account) ∷ []

claim_all-Distinct_example : Distinct (claim_all three_claims two_jobs)
claim_all-Distinct_example = claim_all-Distinct three_claims two_jobs

abbrev statements : List Statement
statements =
    enqueues 1 "rBob" none none account
    ∷ enqueues 1 "rCarol" (some 5) none account
    ∷ claims none account
    ∷ checkpoints 1 none 4
    ∷ fails 1
    ∷ reclaims (some 1)
    ∷ completes 2
    ∷ []

two_jobs-IsKeyed : IsKeyed two_jobs
unfolding eq
two_jobs-IsKeyed = ((refl, (refl, tt)), ((refl, tt), (tt, tt)))

execute_all-IsKeyed_example : IsKeyed (execute_all statements two_jobs)
execute_all-IsKeyed_example = execute_all-IsKeyed statements two_jobs two_jobs-IsKeyed

abbrev tx_of : String → ℕ → IngestTransaction
tx_of hash ledger = record {
  hash = hash;
  ledger_index = ledger;
  ctid = none;
  close_time_iso = none;
  tx_type = "Payment";
  mpt_issuance_id = none;
  tx_blob = [];
  meta_blob = [];
  source_endpoint = "http://clio";
  fetched_at = "2026-01-01T00:00:00Z";
  accounts = "rAlice" ∷ [];
}

-- The second transaction comes twice.
abbrev batch : List IngestTransaction
batch = tx_of "B2" 7 ∷ tx_of "A1" 6 ∷ tx_of "B2" 9 ∷ []

abbrev empty_archive : Archive
empty_archive = record { transactions = []; accounts = []; account_transactions = [] }

insert_transaction_rows_many-row_of_example :
    (row_of "B2" (insert_transaction_rows_many batch empty_archive).transactions
      ≡ kept_or (row_of "B2" []) (first_row "B2" batch))
    × (row_of "B2" (insert_transaction_rows_many batch empty_archive).transactions
        ≡ row_of "B2" (insert_each batch empty_archive).transactions)
insert_transaction_rows_many-row_of_example =
    insert_transaction_rows_many-row_of "B2" batch empty_archive
