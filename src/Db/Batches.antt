-- ===== src/Db/Batches.antt =====
-- The batched insert of transactions.ts against the single one, on the table `transactions`.
use xrpl_registrar.Common.{
  String, ◌≡◌, refl, sym, ap, ◌∙◌, Bool, true, false, ◌&&◌, Option, none, some, List, [], ◌∷◌, ◌++◌,
  arith, if◌then◌else◌,
}
use xrpl_registrar.Common.Sort.{sort, find, find-sort}
use xrpl_registrar.Common.Text.{eq, eq_iff, lt, lt-ne}
use xrpl_registrar.Db.Chunks.{chunks, flatten, chunks_lem}
use xrpl_registrar.Db.Transactions.{
  IngestTransaction, TransactionRow, Archive, to_row, insert_row, text_less, link_accounts,
  insert_transaction_rows, insert_each, seen_hash, distinct_hashes, write_rows, write_chunks,
  insert_transaction_rows_many,
}

-- The row of a hash.
unfoldable pub row_of : String → List TransactionRow → Option TransactionRow
row_of h [] = none
row_of h (r ∷ rs) = if eq r.hash h then some r else row_of h rs

-- The row that a list of transactions has for a hash: the first one's.
unfoldable pub first_row : String → List IngestTransaction → Option TransactionRow
unfolding to_row
first_row h [] = none
first_row h (tx ∷ txs) = if eq tx.hash h then some (to_row tx) else first_row h txs

-- What is there stays.
abbrev pub kept_or : Option TransactionRow → Option TransactionRow → Option TransactionRow
kept_or none new = new
kept_or (some r) new = some r

row_of-insert_row :
    (h : String) (row : TransactionRow) (rs : List TransactionRow)
    → row_of h (insert_row row rs)
      ≡ kept_or (row_of h rs) (if eq row.hash h then some row else none)
unfolding row_of insert_row
row_of-insert_row h row [] = refl
row_of-insert_row h row (r ∷ rs) =
    ground (
      arith,
      eq_iff r.hash row.hash,
      eq_iff row.hash h,
      eq_iff r.hash h,
      row_of-insert_row h row rs,
    )

abbrev insert_tx : IngestTransaction → List TransactionRow → List TransactionRow
insert_tx tx = insert_row (to_row tx)

kept_or-none : (o : Option TransactionRow) → o ≡ kept_or o none
kept_or-none none = refl
kept_or-none (some r) = refl

kept_or-first :
    (o : Option TransactionRow) (b : Bool) (r : TransactionRow) (later : Option TransactionRow)
    → kept_or (kept_or o (if b then some r else none)) later
      ≡ kept_or o (if b then some r else later)
kept_or-first none true r later = refl
kept_or-first none false r later = refl
kept_or-first (some x) b r later = refl

-- One transaction more: its row counts unless the hash has one.
first_row-cons :
    (h : String) (tx : IngestTransaction) (txs : List IngestTransaction) (rs : List TransactionRow)
    → kept_or (row_of h (insert_tx tx rs)) (first_row h txs)
      ≡ kept_or (row_of h rs) (first_row h (tx ∷ txs))
unfolding first_row to_row
first_row-cons h tx txs rs =
    ap (λ o. kept_or o (first_row h txs)) (row_of-insert_row h (to_row tx) rs)
    ∙ kept_or-first (row_of h rs) (eq tx.hash h) (to_row tx) (first_row h txs)

row_of-write_rows :
    (h : String) (txs : List IngestTransaction) (rs : List TransactionRow)
    → row_of h (write_rows insert_tx txs rs) ≡ kept_or (row_of h rs) (first_row h txs)
unfolding write_rows first_row
row_of-write_rows h [] rs = kept_or-none (row_of h rs)
row_of-write_rows h (tx ∷ txs) rs =
    row_of-write_rows h txs (insert_tx tx rs) ∙ first_row-cons h tx txs rs

module _ {A T : Type 0} (write : A → T → T) where
  write_rows-append :
      (xs ys : List A) (t : T)
      → write_rows write (xs ++ ys) t ≡ write_rows write ys (write_rows write xs t)
  unfolding write_rows
  write_rows-append [] ys t = refl
  write_rows-append (x ∷ xs) ys t = write_rows-append xs ys (write x t)

  write_chunks-flatten :
      (cs : List (List A)) (t : T) → write_chunks write cs t ≡ write_rows write (flatten cs) t
  unfolding write_chunks flatten write_rows
  write_chunks-flatten [] t = refl
  write_chunks-flatten (c ∷ cs) t =
      write_chunks-flatten cs (write_rows write c t) ∙ sym (write_rows-append c (flatten cs) t)

abbrev row_from : Option IngestTransaction → Option TransactionRow
row_from none = none
row_from (some tx) = some (to_row tx)

first_row-find :
    (h : String) (txs : List IngestTransaction)
    → first_row h txs ≡ row_from (find (λ tx. eq tx.hash h) txs)
unfolding first_row find
first_row-find h [] = refl
first_row-find h (tx ∷ txs) = ground (arith, first_row-find h txs)

one_hash :
    (h : String) (y x : IngestTransaction)
    → lt y.hash x.hash ≡ true
    → (eq x.hash h && eq y.hash h) ≡ false
one_hash h y x l =
    ground (arith, eq_iff x.hash h, eq_iff y.hash h, eq_iff y.hash x.hash, lt-ne y.hash x.hash l)

first_row-sort :
    (h : String) (txs : List IngestTransaction)
    → first_row h (sort (λ a b. lt a.hash b.hash) txs) ≡ first_row h txs
first_row-sort h txs =
    first_row-find h (sort (λ a b. lt a.hash b.hash) txs)
    ∙ ap row_from (find-sort (λ a b. lt a.hash b.hash) (λ tx. eq tx.hash h) (one_hash h) txs)
    ∙ sym (first_row-find h txs)

first_row-distinct_hashes :
    (h : String) (seen : List String) (txs : List IngestTransaction)
    → seen_hash h seen ≡ false
    → first_row h (distinct_hashes seen txs) ≡ first_row h txs
unfolding first_row distinct_hashes
first_row-distinct_hashes h seen [] n = refl
first_row-distinct_hashes h seen (tx ∷ txs) n = ground (
  arith,
  eq_iff tx.hash h,
  first_row-distinct_hashes h seen txs n,
  first_row-distinct_hashes h (tx.hash ∷ seen) txs,
)

link_accounts-transactions :
    (tx : IngestTransaction) (addresses : List String) (db : Archive)
    → (link_accounts tx addresses db).transactions ≡ db.transactions
unfolding link_accounts
link_accounts-transactions tx [] db = refl
link_accounts-transactions tx (a ∷ rest) db = link_accounts-transactions tx rest _

insert_transaction_rows-transactions :
    (tx : IngestTransaction) (db : Archive)
    → (insert_transaction_rows tx db).transactions ≡ insert_tx tx db.transactions
unfolding insert_transaction_rows
insert_transaction_rows-transactions tx db =
    link_accounts-transactions tx (sort text_less tx.accounts)
      (record db { transactions = insert_tx tx db.transactions })

row_of-insert_each :
    (h : String) (txs : List IngestTransaction) (db : Archive)
    → row_of h (insert_each txs db).transactions
      ≡ kept_or (row_of h db.transactions) (first_row h txs)
unfolding insert_each first_row
row_of-insert_each h [] db = kept_or-none (row_of h db.transactions)
row_of-insert_each h (tx ∷ txs) db =
    row_of-insert_each h txs (insert_transaction_rows tx db)
    ∙ ap (λ rs. kept_or (row_of h rs) (first_row h txs))
        (insert_transaction_rows-transactions tx db)
    ∙ first_row-cons h tx txs db.transactions

-- A batch leaves the same row for every hash in `transactions` as its transactions inserted one
-- after the other: the one that was there, or else that of the first transaction with the hash.
pub insert_transaction_rows_many-row_of :
    (h : String) (txs : List IngestTransaction) (db : Archive)
    → (row_of h (insert_transaction_rows_many txs db).transactions
        ≡ kept_or (row_of h db.transactions) (first_row h txs))
      × (row_of h (insert_transaction_rows_many txs db).transactions
          ≡ row_of h (insert_each txs db).transactions)
unfolding insert_transaction_rows_many
insert_transaction_rows_many-row_of h txs db =
    let rows = sort (λ a b. lt a.hash b.hash) (distinct_hashes [] txs) in
    let batch =
      ap (row_of h) (write_chunks-flatten insert_tx (chunks 10 rows) db.transactions)
      ∙ ap (λ l. row_of h (write_rows insert_tx l db.transactions))
          (chunks_lem 10 rows (omega arith) (omega arith)).0
      ∙ row_of-write_rows h rows db.transactions
      ∙ ap (kept_or (row_of h db.transactions))
          (first_row-sort h (distinct_hashes [] txs) ∙ first_row-distinct_hashes h [] txs refl) in
    (batch, batch ∙ sym (row_of-insert_each h txs db))
