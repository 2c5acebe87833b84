-- ===== src/Backfill/Holders.antt =====
-- src/backfill/issuerSweep.ts: recording the holders that a sweep finds, and claiming coverage for
-- them. The reason text of a coverage row is left out.
use xrpl_registrar.Common.{
  ℕ, min, max, String, Option, none, some, List, [], ◌∷◌, ◌++◌, map, ◌==◌, if◌then◌else◌, or_else,
  length, keep_if,
}
use xrpl_registrar.Common.Sort.{sort}
use xrpl_registrar.Common.Text.{lt}
use xrpl_registrar.Backfill.Worker.{CoverageRow}
use xrpl_registrar.Db.Jobs.{Jobs}
use xrpl_registrar.Db.Transactions.{Archive, upsert_account}
use xrpl_registrar.Discovery.Earliest.{Membership, issuer_sweep, upsert_membership}

-- The database of a sweep, with the derived deltas as the derivation keeps them.
pub record SweepDb (D : Type 0) : Type 0 where
  pub archive : Archive
  pub deltas : D
  pub jobs : Jobs
  pub coverage : List CoverageRow
  pub account_issuance : List Membership

-- `SELECT min(first_acquisition_ledger) … WHERE issuance_id = $1`
unfoldable pub first_acquisition : ℕ → List Membership → Option ℕ
first_acquisition issuance_id [] = none
first_acquisition issuance_id (m ∷ ms) =
    if m.issuance_id == issuance_id
    then elim m.first_acquisition_ledger [
      | none ↦ first_acquisition issuance_id ms
      | some l ↦ some (min l (or_else (first_acquisition issuance_id ms) l))
    ]
    else first_acquisition issuance_id ms

abbrev pub clamped : Option ℕ → ℕ → ℕ
clamped none from = from
clamped (some lo) from = max from lo

-- `const floor = Math.min(to, …)`
unfoldable pub coverage_floor : ℕ → List Membership → ℕ → ℕ → ℕ
unfolding first_acquisition
coverage_floor issuance_id members from to =
    min to (clamped (first_acquisition issuance_id members) from)

abbrev pub members_of : ℕ → List Membership → List Membership
members_of issuance_id members = keep_if (λ m. m.issuance_id == issuance_id) members

abbrev pub covering : ℕ → ℕ → String → CoverageRow
covering floor to address = record { address = address; from_ledger = floor; to_ledger = to }

unfoldable pub claimed_rows : ℕ → String → ℕ → ℕ → List Membership → List CoverageRow
unfolding coverage_floor
claimed_rows issuance_id issuer from to members =
    let floor = coverage_floor issuance_id members from to in
    map (λ m. covering floor to m.address)
      (sort (λ a b. lt a.address b.address) (members_of issuance_id members))
    ++ covering floor to issuer ∷ []

module _ {D : Type 0} where
  -- `recordHolder`
  unfoldable pub record_holder : ℕ → String → ℕ → SweepDb D → SweepDb D
  record_holder issuance_id address ledger db = record db {
    archive = record db.archive {
      accounts = upsert_account address (some ledger) db.archive.accounts;
    };
    account_issuance =
        upsert_membership
          (record {
            address = address;
            issuance_id = issuance_id;
            discovered_via = issuer_sweep;
            first_acquisition_ledger = some ledger;
          })
          db.account_issuance;
  }

  unfoldable pub record_holders : ℕ → List (String × ℕ) → SweepDb D → SweepDb D
  record_holders issuance_id [] db = db
  record_holders issuance_id ((holder, ledger) ∷ rest) db =
      record_holders issuance_id rest (record_holder issuance_id holder ledger db)

  -- `claimCoverage`
  unfoldable pub claim_coverage : ℕ → String → ℕ → ℕ → SweepDb D → SweepDb D
  unfolding claimed_rows
  claim_coverage issuance_id issuer from to db = record db {
    coverage = db.coverage ++ claimed_rows issuance_id issuer from to db.account_issuance;
  }

  unfoldable pub count_holders : ℕ → SweepDb D → ℕ
  count_holders issuance_id db = length (members_of issuance_id db.account_issuance)
