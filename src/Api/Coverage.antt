-- ===== src/Api/Coverage.antt =====
-- src/api/methods/gatewayBalances.ts: the coverage window of an issuance, and the refusal of a
-- ledger outside it.
pub mod FailClosed
use xrpl_registrar.Common.{
  ℕ, suc, min, max, String, Bool, true, ◌||◌, Option, none, some, List, ◌∷◌, ◌++◌, map, ltb,
  if◌then◌else◌, or_else, keep_if, [],
}
use xrpl_registrar.Common.Text.{eq}
use xrpl_registrar.Backfill.Worker.{CoverageRow}

pub record Window : Type 0 where
  pub min : ℕ
  pub max : ℕ

-- The joined rows of one account.
abbrev pub rows_of : String → List CoverageRow → List CoverageRow
rows_of address rows = keep_if (λ r. eq r.address address) rows

-- `account_issuance LEFT JOIN coverage`: an account without a row joins NULL.
abbrev pub or_null : List CoverageRow → List (Option CoverageRow)
or_null [] = none ∷ []
or_null (r ∷ rs) = some r ∷ map some rs

unfoldable pub joined : List String → List CoverageRow → List (Option CoverageRow)
joined [] rows = []
joined (m ∷ ms) rows = or_null (rows_of m rows) ++ joined ms rows

-- SQL's `max` and `min` pass over NULL, and are NULL of no value.
unfoldable pub max_from : List (Option CoverageRow) → Option ℕ
max_from [] = none
max_from (none ∷ rs) = max_from rs
max_from (some r ∷ rs) = some (max r.from_ledger (or_else (max_from rs) 0))

unfoldable pub min_to : List (Option CoverageRow) → Option ℕ
min_to [] = none
min_to (none ∷ rs) = min_to rs
min_to (some r ∷ rs) = some (min r.to_ledger (or_else (min_to rs) r.to_ledger))

-- `count(*) FILTER (WHERE c.address IS NULL)`
unfoldable pub uncovered : List (Option CoverageRow) → ℕ
uncovered [] = 0
uncovered (none ∷ rs) = suc (uncovered rs)
uncovered (some r ∷ rs) = uncovered rs

-- `SELECT max(ledger_index) FROM ledgers`
unfoldable pub tail_hi : List ℕ → Option ℕ
tail_hi [] = none
tail_hi (l ∷ ls) = some (max l (or_else (tail_hi ls) 0))

abbrev pub reach : Option ℕ → ℕ → ℕ
reach none backfill_hi = backfill_hi
reach (some t) backfill_hi = max t backfill_hi

abbrev pub window_of : Option ℕ → Option ℕ → Option ℕ → Option Window
window_of (some lo) (some backfill_hi) tail =
    if ltb (reach tail backfill_hi) lo
    then none
    else some (record { min = lo; max = reach tail backfill_hi })
window_of _ _ tail = none

unfoldable pub window_from : List (Option CoverageRow) → List ℕ → Option Window
unfolding max_from min_to uncovered tail_hi
window_from rows ledgers =
    if ltb 0 (uncovered rows)
    then none
    else window_of (max_from rows) (min_to rows) (tail_hi ledgers)

-- `conservativeCoverage`, from the issuance's accounts, the coverage rows and the cached ledgers.
unfoldable pub conservative_coverage : List String → List CoverageRow → List ℕ → Option Window
unfolding joined window_from
conservative_coverage members rows ledgers = window_from (joined members rows) ledgers

-- `!cov || ledger < cov.min || ledger > cov.max`
abbrev pub outside : ℕ → Option Window → Bool
outside ledger none = true
outside ledger (some w) = ltb ledger w.min || ltb w.max ledger

-- The loop over the issuances, each with its accounts: the first that does not cover the ledger.
unfoldable pub check_coverage :
    ℕ → List (String × List String) → List CoverageRow → List ℕ → Option (String × Option Window)
unfolding conservative_coverage
check_coverage ledger [] rows ledgers = none
check_coverage ledger ((currency, members) ∷ rest) rows ledgers =
    let cov = conservative_coverage members rows ledgers in
    if outside ledger cov then some (currency, cov) else check_coverage ledger rest rows ledgers
