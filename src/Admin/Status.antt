-- ===== src/Admin/Status.antt =====
-- src/admin/adminApi.ts: the registration of an issuance, and the queries behind its status. The
-- ledgers are those with a recorded close time; the order of a random sample is an argument.
pub mod Joins
use xrpl_registrar.Common.{
  ℕ, ◌+◌, min, max, String, Bool, true, false, not, ◌&&◌, Option, none, some, List, [], ◌∷◌, ◌++◌,
  map, ◌==◌, if◌then◌else◌, length, take, keep_if, any_of,
}
use xrpl_registrar.Common.Set.{add_each}
use xrpl_registrar.Admin.Deletion.{AdminDb}
use xrpl_registrar.Api.Coverage.{Window, rows_of, max_from, min_to, tail_hi, window_of}
use xrpl_registrar.Api.Reporting.{joined_entries}
use xrpl_registrar.Api.Scope.{least_of, greatest_of}
use xrpl_registrar.Backfill.Worker.{CoverageRow}
use xrpl_registrar.Db.Issuances.{
  new_mpt, new_iou, IssuanceRecord, Issuances, create_issuance, get_by_id, set_enabled,
}
use xrpl_registrar.Db.Jobs.{BackfillJob, BackfillStatus, pending, running, completed, failed}
use xrpl_registrar.Discovery.Earliest.{Membership}
use xrpl_registrar.Xrpl.Currency.{Normalized, stored, normalize_currency}

pub data RegisterIssuance : Type 0 where
  register_mpt : (mpt_issuance_id : String) (backfill_from_ledger : Option ℕ) → RegisterIssuance
  register_iou : (currency issuer : String) (backfill_from_ledger : Option ℕ) → RegisterIssuance

-- The record, or the reason inside an `AdminInputError`.
pub data Registration : Type 0 where
  registered : (record_of : IssuanceRecord) → Registration
  input_error : (why : Normalized) → Registration

abbrev created : Issuances × IssuanceRecord → Issuances × Registration
created (t, r) = (t, registered r)

unfoldable pub register_issuance :
    (String → String) → String → RegisterIssuance → Issuances → Issuances × Registration
register_issuance trim now (register_mpt id from) t =
    created (create_issuance now (new_mpt id from none) t)
register_issuance trim now (register_iou currency issuer from) t =
    elim (normalize_currency trim currency) [
      | stored code ↦ created (create_issuance now (new_iou code issuer from none) t)
      | why ↦ (t, input_error why)
    ]

-- `Math.max(1, Math.min(1000, …))` rows of the shuffled table; a negative limit is cut to 0 before.
unfoldable pub sample_holders :
    (List Membership → List Membership) → ℕ → ℕ → List Membership → List String
sample_holders shuffle id limit ms =
    map (λ m. m.address)
      (take (max 1 (min 1000 limit)) (shuffle (keep_if (λ m. m.issuance_id == id) ms)))

abbrev is_open : BackfillStatus → Bool
is_open pending = true
is_open running = true
is_open _ = false

pub record JobProgress : Type 0 where
  pub done : ℕ
  pub total : ℕ

-- The jobs of the issuances that still have one to do.
unfoldable pub jobs_in_flight : List BackfillJob → List BackfillJob
jobs_in_flight js =
    keep_if (λ j. any_of (λ o. o.issuance_id == j.issuance_id && is_open o.status) js) js

unfoldable pub backfill_progress : List BackfillJob → Option JobProgress
unfolding jobs_in_flight
backfill_progress js =
    let total = length (jobs_in_flight js) in
    if total == 0
    then none
    else some (record {
      done = length (keep_if (λ j. not (is_open j.status)) (jobs_in_flight js));
      total = total;
    })

pub record TransactionStats : Type 0 where
  pub count : ℕ
  pub earliest_ledger : Option ℕ
  pub latest_ledger : Option ℕ

unfoldable pub transaction_stats : ℕ → AdminDb → TransactionStats
unfolding joined_entries least_of greatest_of
transaction_stats id db =
    let entries =
      keep_if (λ e. e.issuance_id == id)
        (joined_entries db.balance_deltas db.archive.transactions) in
    record {
      count = length (add_each (map (λ e. e.hash) entries) []);
      earliest_ledger = least_of (map (λ e. e.ledger) entries);
      latest_ledger = greatest_of (map (λ e. e.ledger) entries);
    }

pub record BackfillSummary : Type 0 where
  pub pending : ℕ
  pub running : ℕ
  pub completed : ℕ
  pub failed : ℕ
  pub total_tx : ℕ

-- A group of `GROUP BY status`.
pub record StatusGroup : Type 0 where
  pub status : BackfillStatus
  pub n : ℕ
  pub tx : ℕ

abbrev same_status : BackfillStatus → BackfillStatus → Bool
same_status pending pending = true
same_status running running = true
same_status completed completed = true
same_status failed failed = true
same_status _ _ = false

-- A job counted in the group of its status.
unfoldable pub count_in : BackfillJob → List StatusGroup → List StatusGroup
count_in j [] = record { status = j.status; n = 1; tx = j.tx_count } ∷ []
count_in j (g ∷ gs) =
    if same_status g.status j.status
    then record g { n = g.n + 1; tx = g.tx + j.tx_count } ∷ gs
    else g ∷ count_in j gs

unfoldable pub group_by_status : List BackfillJob → List StatusGroup
unfolding count_in
group_by_status [] = []
group_by_status (j ∷ js) = count_in j (group_by_status js)

abbrev set_count : BackfillStatus → ℕ → BackfillSummary → BackfillSummary
set_count pending n s = record s { pending = n }
set_count running n s = record s { running = n }
set_count completed n s = record s { completed = n }
set_count failed n s = record s { failed = n }

unfoldable pub add_group : StatusGroup → BackfillSummary → BackfillSummary
add_group g s = set_count g.status g.n (record s { total_tx = s.total_tx + g.tx })

unfoldable pub add_groups : List StatusGroup → BackfillSummary → BackfillSummary
unfolding add_group
add_groups [] s = s
add_groups (g ∷ gs) s = add_groups gs (add_group g s)

unfoldable pub backfill_summary : ℕ → List BackfillJob → BackfillSummary
unfolding group_by_status add_groups
backfill_summary id js =
    add_groups (group_by_status (keep_if (λ j. j.issuance_id == id) js))
      (record { pending = 0; running = 0; completed = 0; failed = 0; total_tx = 0 })

-- `coverage c JOIN account_issuance ai`: an account without a row has none here.
unfoldable pub inner_joined : List String → List CoverageRow → List (Option CoverageRow)
inner_joined [] rows = []
inner_joined (m ∷ ms) rows = map some (rows_of m rows) ++ inner_joined ms rows

unfoldable pub coverage_of_rows : List String → List CoverageRow → List ℕ → Option Window
unfolding inner_joined max_from min_to tail_hi
coverage_of_rows members rows ledgers =
    window_of (max_from (inner_joined members rows)) (min_to (inner_joined members rows))
      (tail_hi ledgers)

abbrev members : ℕ → AdminDb → List String
members id db = map (λ m. m.address) (keep_if (λ m. m.issuance_id == id) db.account_issuance)

pub record IssuanceStatus : Type 0 where
  pub issuance : IssuanceRecord
  pub accounts : ℕ
  pub transactions : TransactionStats
  pub backfill : BackfillSummary
  pub coverage : Option Window

-- `getIssuance`, without the last reconciliation.
unfoldable pub get_issuance : ℕ → List ℕ → AdminDb → Option IssuanceStatus
unfolding transaction_stats backfill_summary coverage_of_rows
get_issuance id ledgers db = elim (get_by_id id db.issuances) [
  | none ↦ none
  | some issuance ↦ some (record {
    issuance = issuance;
    accounts = length (members id db);
    transactions = transaction_stats id db;
    backfill = backfill_summary id db.jobs.rows;
    coverage = coverage_of_rows (members id db) db.coverage ledgers;
  })
]

-- `setEnabled`: whether there is such an issuance.
unfoldable pub enable_issuance : ℕ → Bool → Issuances → Issuances × Bool
enable_issuance id enabled t = elim (get_by_id id t) [
  | none ↦ (t, false)
  | some i ↦ (set_enabled id enabled t, true)
]
