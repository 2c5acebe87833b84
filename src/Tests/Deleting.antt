-- ===== src/Tests/Deleting.antt =====
-- deleteIssuance at a concrete database: two issuances, and the issuer of the second holds the first.
use xrpl_registrar.Common.{
  ℕ, String, ◌≡◌, refl, Bool, true, Option, none, some, List, [], ◌∷◌, arith,
}
use xrpl_registrar.Common.Text.{eq}
use xrpl_registrar.Common.Set.{add, add_each}
use xrpl_registrar.Common.Sort.{find, sort, insert_sorted}
use xrpl_registrar.Admin.Deletion.{
  AdminDb, deltas_left, delete_issuance, purge, removable, exclusive, held_elsewhere,
  is_kept_issuer,
}
use xrpl_registrar.Admin.Deletion.Spares.{IsSpared, delete_issuance-spares}
use xrpl_registrar.Db.Issuances.{IssuanceRecord, iou, get_by_id, list_issuances}
use xrpl_registrar.Discovery.Earliest.{Membership, issuer_sweep}
use xrpl_registrar.Reconcile.BalanceDeltas.{StoredDelta}
use xrpl_registrar.Tests.Reading.{stored}
use xrpl_registrar.Tests.Tables.{waiting}

abbrev issuance : ℕ → String → IssuanceRecord
issuance id issuer = record {
  id = id;
  kind = iou;
  mpt_issuance_id = none;
  currency = some "USD";
  issuer_account = some issuer;
  ticker = none;
  backfill_from_ledger = 0;
  enabled = true;
  created_at = "now";
}

abbrev member : String → ℕ → Membership
member address id = record {
  address = address;
  issuance_id = id;
  discovered_via = issuer_sweep;
  first_acquisition_ledger = none;
}

abbrev delta : String → String → ℕ → StoredDelta
delta hash address id = record {
  issuance_id = id;
  row = record { hash = hash; address = address; delta = "1" };
}

-- Ada issues the first, which Bob and Carol hold; Bob issues the second, which Carol holds.
abbrev db : AdminDb
db = record {
  archive = record {
    transactions = stored "A" 5 ∷ stored "B" 7 ∷ [];
    accounts = ("rAda", none) ∷ ("rBob", none) ∷ ("rCarol", none) ∷ [];
    account_transactions = ("A", "rBob") ∷ ("B", "rCarol") ∷ [];
  };
  issuances = record { rows = issuance 1 "rAda" ∷ issuance 2 "rBob" ∷ []; next_id = 3 };
  account_issuance = member "rBob" 1 ∷ member "rCarol" 1 ∷ member "rCarol" 2 ∷ [];
  balance_deltas = delta "A" "rBob" 1 ∷ delta "B" "rCarol" 2 ∷ [];
  jobs = record {
    rows =
        record (waiting 1 "rAda") { issuance_id = 1 }
        ∷ record (waiting 2 "rBob") { issuance_id = 2 }
        ∷ [];
    next_id = 3;
  };
  coverage =
      record { address = "rBob"; from_ledger = 1; to_ledger = 9 }
      ∷ record { address = "rCarol"; from_ledger = 1; to_ledger = 9 }
      ∷ [];
  runs = record { rows = []; next_id = 1 };
}

abbrev no_codec : List ℕ → Option String
no_codec bytes = none

abbrev succeeds : String → Bool
succeeds sql = true

delete_issuance-spares_example :
    IsSpared 2 "rCarol" db (delete_issuance no_codec succeeds true 1 db).0
unfolding eq
delete_issuance-spares_example =
    delete_issuance-spares no_codec succeeds true 1 2 db "rCarol" (omega arith) refl

-- A delta of the second issuance is kept for its own accounts, and lost for Bob, who is in scope for
-- the first alone.
abbrev incidental : AdminDb
incidental = record db { balance_deltas = delta "B" "rBob" 2 ∷ delta "B" "rCarol" 2 ∷ [] }

incidental_lost :
    (delete_issuance no_codec succeeds true 1 incidental).0.balance_deltas
    ≡ delta "B" "rCarol" 2 ∷ []
unfolding delete_issuance get_by_id find purge removable is_kept_issuer eq list_issuances sort
    insert_sorted held_elsewhere add exclusive add_each deltas_left
incidental_lost = refl

-- The job that backfills the second issuance, and its issuer's account and coverage, are gone.
second_issuer_lost :
    ((delete_issuance no_codec succeeds true 1 db).0.jobs.rows ≡ [])
    × ((delete_issuance no_codec succeeds true 1 db).0.archive.accounts ≡ ("rCarol", none) ∷ [])
unfolding delete_issuance get_by_id find purge removable is_kept_issuer eq list_issuances sort
    insert_sorted held_elsewhere add exclusive add_each
second_issuer_lost = (refl, refl)
