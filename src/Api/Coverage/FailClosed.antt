-- ===== src/Api/Coverage/FailClosed.antt =====
-- What a coverage window of gatewayBalances.ts guarantees of every account of the issuance.
use xrpl_registrar.Common.{ℕ, ◌≤◌, String, ◌≢◌, Option, none, some, List, [], All}
use xrpl_registrar.Backfill.Worker.{CoverageRow}
use xrpl_registrar.Api.Coverage.{rows_of, tail_hi, reach}

-- A joined row that is there, with its range around the bounds.
abbrev Within : ℕ → ℕ → Option CoverageRow → Type 0
Within lo hi none = ⊥
Within lo hi (some r) = (r.from_ledger ≤ lo) × (hi ≤ r.to_ledger)

-- The account has a coverage row, and each of its rows reaches around the ledger: it starts at or
-- before it, and it ends at or after it unless the live tail does.
abbrev pub IsCovered : ℕ → List CoverageRow → List ℕ → String → Type 0
IsCovered ledger rows ledgers address =
    (rows_of address rows ≢ [])
    × All
        (λ (r : CoverageRow).
          (r.from_ledger ≤ ledger) × (ledger ≤ reach (tail_hi ledgers) r.to_ledger))
        (rows_of address rows)
