-- ===== src/Db/Issuances.antt =====
-- src/db/repositories/issuances.ts: the table `issuances`, the unit of configuration. The time of
-- a registration is an argument.
use xrpl_registrar.Common.{
  ℕ, suc, String, Bool, true, Option, none, some, List, [], ◌∷◌, ◌++◌, map, ltb, ◌==◌,
  if◌then◌else◌, or_else,
}
use xrpl_registrar.Common.Sort.{sort, find}

pub data IssuanceKind : Type 0 where
  mpt iou : IssuanceKind

pub data NewIssuance : Type 0 where
  new_mpt :
      (mpt_issuance_id : String) (backfill_from_ledger : Option ℕ) (enabled : Option Bool)
      → NewIssuance
  new_iou :
      (currency issuer_account : String) (backfill_from_ledger : Option ℕ) (enabled : Option Bool)
      → NewIssuance

pub record IssuanceRecord : Type 0 where
  pub id : ℕ
  pub kind : IssuanceKind
  pub mpt_issuance_id : Option String
  pub currency : Option String
  pub issuer_account : Option String
  pub ticker : Option String
  pub backfill_from_ledger : ℕ
  pub enabled : Bool
  pub created_at : String

pub record Issuances : Type 0 where
  pub rows : List IssuanceRecord
  pub next_id : ℕ

unfoldable pub new_row : ℕ → String → NewIssuance → IssuanceRecord
new_row id now (new_mpt mpt_issuance_id from enabled) = record {
  id = id;
  kind = mpt;
  mpt_issuance_id = some mpt_issuance_id;
  currency = none;
  issuer_account = none;
  ticker = none;
  backfill_from_ledger = or_else from 0;
  enabled = or_else enabled true;
  created_at = now;
}
new_row id now (new_iou currency issuer_account from enabled) = record {
  id = id;
  kind = iou;
  mpt_issuance_id = none;
  currency = some currency;
  issuer_account = some issuer_account;
  ticker = none;
  backfill_from_ledger = or_else from 0;
  enabled = or_else enabled true;
  created_at = now;
}

unfoldable pub create_issuance : String → NewIssuance → Issuances → Issuances × IssuanceRecord
unfolding new_row
create_issuance now input t =
    let row = new_row t.next_id now input in
    (record { rows = t.rows ++ row ∷ []; next_id = suc t.next_id }, row)

unfoldable pub get_by_id : ℕ → Issuances → Option IssuanceRecord
get_by_id id t = find (λ r. r.id == id) t.rows

-- `ORDER BY id`
unfoldable pub list_issuances : Issuances → List IssuanceRecord
list_issuances t = sort (λ a b. ltb a.id b.id) t.rows

abbrev update_where : ℕ → (IssuanceRecord → IssuanceRecord) → IssuanceRecord → IssuanceRecord
update_where id change r = if r.id == id then change r else r

unfoldable pub set_enabled : ℕ → Bool → Issuances → Issuances
set_enabled id enabled t = record t {
  rows = map (update_where id (λ r. record r { enabled = enabled })) t.rows;
}

unfoldable pub set_ticker : ℕ → Option String → Issuances → Issuances
set_ticker id ticker t = record t {
  rows = map (update_where id (λ r. record r { ticker = ticker })) t.rows;
}
