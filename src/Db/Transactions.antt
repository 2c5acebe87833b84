-- ===== src/Db/Transactions.antt =====
-- src/db/repositories/transactions.ts: the tables `transactions`, `accounts` and
-- `account_transactions`, and the single and the batched insert. A statement's rows are written
-- one after the other; a chunked insert is its chunks in order.
use xrpl_registrar.Common.{
  ℕ, min, String, Bool, true, false, ◌&&◌, ◌||◌, Option, none, some, List, [], ◌∷◌, ◌++◌,
  if◌then◌else◌, or_else,
}
use xrpl_registrar.Common.Dict.{Dict, lookup, insert}
use xrpl_registrar.Common.Sort.{sort}
use xrpl_registrar.Common.Text.{eq, lt}
use xrpl_registrar.Db.Chunks.{chunks}

pub record IngestTransaction : Type 0 where
  pub hash : String
  pub ledger_index : ℕ
  pub ctid : Option String
  pub close_time_iso : Option String
  pub tx_type : String
  pub mpt_issuance_id : Option String
  pub tx_blob : List ℕ
  pub meta_blob : List ℕ
  pub source_endpoint : String
  pub fetched_at : String
  pub accounts : List String

pub record TransactionRow : Type 0 where
  pub hash : String
  pub ledger_index : ℕ
  pub clio_ctid : Option String
  pub close_time_iso : Option String
  pub tx_type : String
  pub mpt_issuance_id : Option String
  pub tx_blob : List ℕ
  pub meta_blob : List ℕ
  pub source_endpoint : String
  pub fetched_at : String

pub record Archive : Type 0 where
  pub transactions : List TransactionRow
  pub accounts : Dict (Option ℕ)
  pub account_transactions : List (String × String)

-- The statement's parameters.
unfoldable pub to_row : IngestTransaction → TransactionRow
to_row tx = record {
  hash = tx.hash;
  ledger_index = tx.ledger_index;
  clio_ctid = tx.ctid;
  close_time_iso = tx.close_time_iso;
  tx_type = tx.tx_type;
  mpt_issuance_id = tx.mpt_issuance_id;
  tx_blob = tx.tx_blob;
  meta_blob = tx.meta_blob;
  source_endpoint = tx.source_endpoint;
  fetched_at = tx.fetched_at;
}

-- `INSERT INTO transactions … ON CONFLICT (hash) DO NOTHING`
unfoldable pub insert_row : TransactionRow → List TransactionRow → List TransactionRow
insert_row row [] = row ∷ []
insert_row row (r ∷ rs) = if eq r.hash row.hash then r ∷ rs else r ∷ insert_row row rs

-- SQL's `LEAST`, which passes over NULL.
abbrev pub least : Option ℕ → Option ℕ → Option ℕ
least none b = b
least (some a) none = some a
least (some a) (some b) = some (min a b)

-- `INSERT INTO accounts … ON CONFLICT (address) DO UPDATE SET first_seen_ledger = LEAST(…)`
unfoldable pub upsert_account : String → Option ℕ → Dict (Option ℕ) → Dict (Option ℕ)
upsert_account address ledger [] = (address, ledger) ∷ []
upsert_account address ledger ((a, first) ∷ rest) =
    if eq a address
    then (a, least first ledger) ∷ rest
    else (a, first) ∷ upsert_account address ledger rest

abbrev pub same_link : String × String → String × String → Bool
same_link (h, a) (h', a') = eq h h' && eq a a'

-- `INSERT INTO account_transactions … ON CONFLICT (hash, address) DO NOTHING`
unfoldable pub insert_link : String × String → List (String × String) → List (String × String)
insert_link link [] = link ∷ []
insert_link link (l ∷ ls) = if same_link l link then l ∷ ls else l ∷ insert_link link ls

abbrev pub text_less : String → String → Bool
text_less a b = lt a b

-- The loop over the sorted accounts of one transaction.
unfoldable pub link_accounts : IngestTransaction → List String → Archive → Archive
link_accounts tx [] db = db
link_accounts tx (address ∷ rest) db = link_accounts tx rest (record db {
  accounts = upsert_account address (some tx.ledger_index) db.accounts;
  account_transactions = insert_link (tx.hash, address) db.account_transactions;
})

unfoldable pub insert_transaction_rows : IngestTransaction → Archive → Archive
unfolding link_accounts
insert_transaction_rows tx db =
    link_accounts tx (sort text_less tx.accounts)
      (record db { transactions = insert_row (to_row tx) db.transactions })

-- The transactions one at a time.
unfoldable pub insert_each : List IngestTransaction → Archive → Archive
insert_each [] db = db
insert_each (tx ∷ txs) db = insert_each txs (insert_transaction_rows tx db)

abbrev pub seen_hash : String → List String → Bool
seen_hash h [] = false
seen_hash h (s ∷ ss) = eq s h || seen_hash h ss

-- The filter by `seenTx`.
unfoldable pub distinct_hashes : List String → List IngestTransaction → List IngestTransaction
distinct_hashes seen [] = []
distinct_hashes seen (tx ∷ txs) =
    if seen_hash tx.hash seen
    then distinct_hashes seen txs
    else tx ∷ distinct_hashes (tx.hash ∷ seen) txs

-- The map `earliest`.
unfoldable pub earliest_in : ℕ → List String → Dict ℕ → Dict ℕ
earliest_in ledger [] m = m
earliest_in ledger (address ∷ rest) m =
    earliest_in ledger rest (insert address (min (or_else (lookup address m) ledger) ledger) m)

unfoldable pub earliest_all : List IngestTransaction → Dict ℕ → Dict ℕ
unfolding earliest_in
earliest_all [] m = m
earliest_all (tx ∷ txs) m = earliest_all txs (earliest_in tx.ledger_index tx.accounts m)

abbrev pub seen_link : String × String → List (String × String) → Bool
seen_link l [] = false
seen_link l (s ∷ ss) = same_link s l || seen_link l ss

-- The array `links`, kept distinct by `seenLink`.
unfoldable pub links_in : String → List String → List (String × String) → List (String × String)
links_in hash [] links = links
links_in hash (address ∷ rest) links =
    links_in hash rest
      (if seen_link (hash, address) links then links else links ++ (hash, address) ∷ [])

unfoldable pub links_all : List IngestTransaction → List (String × String) → List (String × String)
unfolding links_in
links_all [] links = links
links_all (tx ∷ txs) links = links_all txs (links_in tx.hash tx.accounts links)

abbrev pub link_less : String × String → String × String → Bool
link_less (h, a) (h', a') = if lt h h' then true else if lt h' h then false else lt a a'

module _ {ℓ κ} {A : Type ℓ} {T : Type κ} (write : A → T → T) where
  unfoldable pub write_rows : List A → T → T
  write_rows [] t = t
  write_rows (x ∷ xs) t = write_rows xs (write x t)

  -- `insertChunked`
  unfoldable pub write_chunks : List (List A) → T → T
  unfolding write_rows
  write_chunks [] t = t
  write_chunks (c ∷ cs) t = write_chunks cs (write_rows c t)

abbrev pub write_account : String × ℕ → Dict (Option ℕ) → Dict (Option ℕ)
write_account (address, ledger) = upsert_account address (some ledger)

unfoldable pub insert_transaction_rows_many : List IngestTransaction → Archive → Archive
unfolding write_chunks
insert_transaction_rows_many txs db = record {
  transactions =
      write_chunks (λ tx. insert_row (to_row tx))
        (chunks 10 (sort (λ a b. lt a.hash b.hash) (distinct_hashes [] txs))) db.transactions;
  accounts =
      write_chunks write_account (chunks 2 (sort (λ a b. lt a.0 b.0) (earliest_all txs [])))
        db.accounts;
  account_transactions =
      write_chunks insert_link (chunks 2 (sort link_less (links_all txs [])))
        db.account_transactions;
}
