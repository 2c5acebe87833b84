-- ===== src/Admin/Status/Joins.antt =====
-- The coverage of adminApi.ts against that of methods/gatewayBalances.ts.
use xrpl_registrar.Common.{
  ℕ, ◌+◌, String, ◌≡◌, refl, Option, none, some, List, [], ◌∷◌, ◌++◌, map, arith,
}
use xrpl_registrar.Admin.Status.{inner_joined, coverage_of_rows}
use xrpl_registrar.Api.Coverage.{
  rows_of, or_null, joined, uncovered, window_from, conservative_coverage,
}
use xrpl_registrar.Backfill.Worker.{CoverageRow}

uncovered-append :
    (xs ys : List (Option CoverageRow)) → uncovered (xs ++ ys) ≡ uncovered xs + uncovered ys
unfolding uncovered
uncovered-append [] ys = ground arith
uncovered-append (none ∷ xs) ys = grind (arith, uncovered-append xs ys)
uncovered-append (some r ∷ xs) ys = grind (arith, uncovered-append xs ys)

some-or_null : (rs : List CoverageRow) → uncovered (or_null rs) ≡ 0 → map some rs ≡ or_null rs
unfolding uncovered
some-or_null [] h = absurd (ground (arith, h))
some-or_null (r ∷ rs) h = refl

-- Where every account has a row, both joins are the same.
inner_joined-joined :
    (members : List String) (rows : List CoverageRow)
    → uncovered (joined members rows) ≡ 0
    → inner_joined members rows ≡ joined members rows
unfolding inner_joined joined
inner_joined-joined [] rows h = refl
inner_joined-joined (m ∷ ms) rows h =
    let split = uncovered-append (or_null (rows_of m rows)) (joined ms rows) in
    rw (
      some-or_null (rows_of m rows) (omega (arith, h, split)),
      inner_joined-joined ms rows (omega (arith, h, split)),
    )

-- Where every account of an issuance has a coverage row, the coverage that the admin API shows for
-- it is the one that gateway_balances checks a ledger against.
pub coverage_of_rows-conservative_coverage :
    (members : List String) (rows : List CoverageRow) (ledgers : List ℕ)
    → uncovered (joined members rows) ≡ 0
    → coverage_of_rows members rows ledgers ≡ conservative_coverage members rows ledgers
unfolding coverage_of_rows conservative_coverage window_from
coverage_of_rows-conservative_coverage members rows ledgers h =
    rw (inner_joined-joined members rows h, h)
