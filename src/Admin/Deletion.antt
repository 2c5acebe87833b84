-- ===== src/Admin/Deletion.antt =====
-- deleteIssuance of src/admin/adminApi.ts: the purge of one issuance's own data, in one transaction.
-- The address codec is a parameter, which throws where it is `none`.
pub mod Spares
use xrpl_registrar.Common.{
  ℕ, ◌-◌, String, Bool, not, ◌&&◌, ◌||◌, Option, none, some, List, [], ◌∷◌, map, ◌==◌,
  if◌then◌else◌, or_else, length, keep_if, any_of,
}
use xrpl_registrar.Common.Set.{add, add_each}
use xrpl_registrar.Common.Text.{eq, one_of}
use xrpl_registrar.Backfill.Worker.{CoverageRow}
use xrpl_registrar.Db.Issuances.{IssuanceRecord, Issuances, mpt, iou, get_by_id, list_issuances}
use xrpl_registrar.Db.Jobs.{Jobs}
use xrpl_registrar.Db.Transactions.{Archive, TransactionRow}
use xrpl_registrar.Discovery.Earliest.{Membership}
use xrpl_registrar.Reconcile.BalanceDeltas.{StoredDelta}
use xrpl_registrar.Reconcile.Reconciler.{Runs}
use xrpl_registrar.Xrpl.Mpt.{decode_mpt_issuer}

-- The whole database.
pub record AdminDb : Type 0 where
  pub archive : Archive
  pub issuances : Issuances
  pub account_issuance : List Membership
  pub balance_deltas : List StoredDelta
  pub jobs : Jobs
  pub coverage : List CoverageRow
  pub runs : Runs

pub record DeleteSummary : Type 0 where
  pub issuance_id : ℕ
  pub accounts_removed : ℕ
  pub transactions_removed : ℕ
  pub deltas_removed : ℕ
  pub compacted : Bool

-- `issuerOf`, and "" where the stored id cannot be decoded.
unfoldable pub safe_issuer : (List ℕ → Option String) → IssuanceRecord → String
safe_issuer encode i = elim i.kind [
  | mpt ↦ or_else (decode_mpt_issuer encode (or_else i.mpt_issuance_id "")) ""
  | iou ↦ or_else i.issuer_account ""
]

-- `WHERE address = $1 AND issuance_id <> $2`
abbrev pub held_by_other : ℕ → String → Membership → Bool
held_by_other id address m = eq m.address address && not (m.issuance_id == id)

unfoldable pub held_elsewhere : ℕ → String → List Membership → Bool
held_elsewhere id address ms = any_of (held_by_other id address) ms

-- `SELECT address … WHERE issuance_id = $1 EXCEPT SELECT address … WHERE issuance_id <> $1`
unfoldable pub exclusive : ℕ → List Membership → List String
exclusive id ms =
    keep_if (λ a. not (held_elsewhere id a ms))
      (add_each (map (λ m. m.address) (keep_if (λ m. m.issuance_id == id) ms)) [])

-- The issuer of another issuance too, or no address at all.
unfoldable pub is_kept_issuer : (List ℕ → Option String) → ℕ → String → Issuances → Bool
unfolding safe_issuer
is_kept_issuer encode id issuer t =
    eq issuer ""
    || any_of (λ o. eq (safe_issuer encode o) issuer)
        (keep_if (λ i. not (i.id == id)) (list_issuances t))

-- The set `removable`.
unfoldable pub removable : (List ℕ → Option String) → IssuanceRecord → AdminDb → List String
removable encode target db =
    let own = exclusive target.id db.account_issuance in
    let issuer = safe_issuer encode target in
    if is_kept_issuer encode target.id issuer db.issuances
    then own
    else if held_elsewhere target.id issuer db.account_issuance
    then own
    else add issuer own

-- `DELETE FROM … WHERE …`: what is left.
abbrev pub without {ℓ} : {A : Type ℓ} → (A → Bool) → List A → List A
without p xs = keep_if (λ x. not (p x)) xs

-- The transactions that no account and no delta refers to are dead.
abbrev pub is_referenced : List (String × String) → List StoredDelta → TransactionRow → Bool
is_referenced links deltas t =
    any_of (λ l. eq l.0 t.hash) links || any_of (λ d. eq d.row.hash t.hash) deltas

unfoldable pub links_left : List String → AdminDb → List (String × String)
links_left addrs db = without (λ l. one_of l.1 addrs) db.archive.account_transactions

unfoldable pub deltas_left : ℕ → List String → AdminDb → List StoredDelta
deltas_left id addrs db =
    without (λ d. one_of d.row.address addrs) (without (λ d. d.issuance_id == id) db.balance_deltas)

-- The transaction; a statement over no addresses deletes nothing.
unfoldable pub purge : ℕ → List String → AdminDb → AdminDb
unfolding links_left deltas_left
purge id addrs db =
    let links = links_left addrs db in
    let deltas = deltas_left id addrs db in
    record {
      archive = record {
        transactions = keep_if (is_referenced links deltas) db.archive.transactions;
        accounts = without (λ a. one_of a.0 addrs) db.archive.accounts;
        account_transactions = links;
      };
      issuances = record db.issuances { rows = without (λ i. i.id == id) db.issuances.rows };
      account_issuance = without (λ m. m.issuance_id == id) db.account_issuance;
      balance_deltas = deltas;
      jobs = record db.jobs {
        rows =
            without (λ j. one_of j.address addrs) (without (λ j. j.issuance_id == id) db.jobs.rows);
      };
      coverage = without (λ c. one_of c.address addrs) db.coverage;
      runs = record db.runs { rows = without (λ r. r.0 == id) db.runs.rows };
    }

-- `#compact`: the first statement that does not fail.
unfoldable pub compact : (String → Bool) → Bool → Bool
compact exec is_postgres =
    any_of exec (if is_postgres then "VACUUM" ∷ [] else "VACUUM (FULL)" ∷ "VACUUM" ∷ [])

abbrev fewer {ℓ} : {A : Type ℓ} → List A → List A → ℕ
fewer before after = length before - length after

unfoldable pub delete_issuance :
    (List ℕ → Option String) → (String → Bool) → Bool → ℕ → AdminDb → AdminDb × Option DeleteSummary
delete_issuance encode exec is_postgres id db = elim (get_by_id id db.issuances) [
  | none ↦ (db, none)
  | some target ↦
      let after = purge id (removable encode target db) db in
      (
        after,
        some (record {
          issuance_id = id;
          accounts_removed = fewer db.archive.accounts after.archive.accounts;
          transactions_removed = fewer db.archive.transactions after.archive.transactions;
          deltas_removed = length (keep_if (λ d. d.issuance_id == id) db.balance_deltas);
          compacted = compact exec is_postgres;
        }),
      )
]
