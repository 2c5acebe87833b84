-- ===== src/Reconcile/BalanceDeltas.antt =====
-- src/reconcile/balanceDeltas.ts: the table `balance_deltas`, its upsert, and the sums.
use xrpl_registrar.Common.{
  ℕ, String, Bool, ◌&&◌, ◌||◌, Option, none, some, List, [], ◌∷◌, ◌++◌, map, ◌==◌, if◌then◌else◌,
  length, keep_if,
}
use xrpl_registrar.Common.Dict.{Dict, lookup, insert}
use xrpl_registrar.Common.Set.{add_each}
use xrpl_registrar.Common.Sort.{sort}
use xrpl_registrar.Common.Text.{eq, lt}
use xrpl_registrar.Db.Chunks.{chunks}

-- A delta as it is stored, as text.
pub record DeltaRow : Type 0 where
  pub hash : String
  pub address : String
  pub delta : String

pub record StoredDelta : Type 0 where
  pub issuance_id : ℕ
  pub row : DeltaRow

pub record DeltaTables : Type 0 where
  pub accounts : Dict (Option ℕ)
  pub balance_deltas : List StoredDelta

-- `INSERT INTO accounts (address) … ON CONFLICT (address) DO NOTHING`
unfoldable pub ensure_account : String → Dict (Option ℕ) → Dict (Option ℕ)
ensure_account address accounts = elim (lookup address accounts) [
  | none ↦ insert address none accounts
  | some ledger ↦ accounts
]

unfoldable pub ensure_accounts : List String → Dict (Option ℕ) → Dict (Option ℕ)
ensure_accounts [] accounts = accounts
ensure_accounts (a ∷ rest) accounts = ensure_accounts rest (ensure_account a accounts)

abbrev pub same_key : StoredDelta → StoredDelta → Bool
same_key a b =
    eq a.row.hash b.row.hash && eq a.row.address b.row.address && a.issuance_id == b.issuance_id

-- `ON CONFLICT (hash, address, issuance_id) DO UPDATE SET delta = EXCLUDED.delta`
unfoldable pub upsert_delta : StoredDelta → List StoredDelta → List StoredDelta
upsert_delta d [] = d ∷ []
upsert_delta d (x ∷ xs) = if same_key x d then d ∷ xs else x ∷ upsert_delta d xs

unfoldable pub upsert_deltas : ℕ → List DeltaRow → List StoredDelta → List StoredDelta
upsert_deltas issuance_id [] table = table
upsert_deltas issuance_id (r ∷ rs) table =
    upsert_deltas issuance_id rs
      (upsert_delta (record { issuance_id = issuance_id; row = r }) table)

-- One statement for each chunk.
unfoldable pub upsert_chunks : ℕ → List (List DeltaRow) → List StoredDelta → List StoredDelta
unfolding upsert_deltas
upsert_chunks issuance_id [] table = table
upsert_chunks issuance_id (c ∷ cs) table =
    upsert_chunks issuance_id cs (upsert_deltas issuance_id c table)

unfoldable pub row_less : DeltaRow → DeltaRow → Bool
row_less a b = lt a.hash b.hash || (eq a.hash b.hash && lt a.address b.address)

abbrev pub flattened {ℓ} : {A : Type ℓ} → List (List A) → List A
flattened [] = []
flattened (xs ∷ xss) = xs ++ flattened xss

unfoldable pub insert_deltas_many : ℕ → List DeltaRow → DeltaTables → DeltaTables
insert_deltas_many issuance_id [] t = t
insert_deltas_many issuance_id (r ∷ rs) t = record {
  accounts =
      ensure_accounts
        (flattened (chunks 1 (sort (λ a b. lt a b) (add_each (map (λ d. d.address) (r ∷ rs)) []))))
        t.accounts;
  balance_deltas = upsert_chunks issuance_id (chunks 3 (sort row_less (r ∷ rs))) t.balance_deltas;
}

unfoldable pub insert_delta : ℕ → DeltaRow → DeltaTables → DeltaTables
insert_delta issuance_id row t = insert_deltas_many issuance_id (row ∷ []) t

-- The deltas of one account.
unfoldable pub deltas_at : ℕ → String → List StoredDelta → List String
deltas_at issuance_id address table =
    map (λ d. d.row.delta)
      (keep_if (λ d. d.issuance_id == issuance_id && eq d.row.address address) table)

-- `sum(delta::numeric)::text … GROUP BY address`; the sum is Postgres's.
module _ (sum : List String → String) where
  unfoldable pub sums : ℕ → List StoredDelta → List (String × String)
  sums issuance_id table =
      map (λ address. (address, sum (deltas_at issuance_id address table)))
        (add_each (map (λ d. d.row.address) (keep_if (λ d. d.issuance_id == issuance_id) table)) [])

  abbrev set_read {ℓ} : {B : Type ℓ} → String → Option B → Option (Dict B) → Option (Dict B)
  set_read address (some b) (some m) = some (insert address b m)
  set_read address b m = none

  -- `balanceByAccount` with BigInt and `decimalBalanceByAccount` with Big, which throw on a text
  -- that is no number.
  unfoldable pub balances {ℓ} :
      {B : Type ℓ}
      → (String → Option B)
      → List (String × String)
      → Option (Dict B)
      → Option (Dict B)
  balances read [] out = out
  balances read ((address, bal) ∷ rest) out = balances read rest (set_read address (read bal) out)

  unfoldable pub balance_by_account {ℓ} :
      {B : Type ℓ} → (String → Option B) → ℕ → List StoredDelta → Option (Dict B)
  unfolding sums balances
  balance_by_account read issuance_id table = balances read (sums issuance_id table) (some [])

unfoldable pub count_deltas : ℕ → List StoredDelta → ℕ
count_deltas issuance_id table = length (keep_if (λ d. d.issuance_id == issuance_id) table)
