-- ===== src/Reconcile/Deriver/Repeated.antt =====
-- Deriving an issuance's deltas again changes nothing.
use xrpl_registrar.Common.{
  ℕ, String, ◌≡◌, refl, sym, ap, ◌∙◌, inl, inr, Bool, true, false, ◌||◌, Option, none, some, List,
  [], ◌∷◌, ◌++◌, map, arith, Bool-cases, Option-cases, All,
}
use xrpl_registrar.Common.Dict.{Dict, lookup, lookup-insert, lookup-insert_self}
use xrpl_registrar.Common.Sort.{sort}
use xrpl_registrar.Common.Text.{eq, eq_iff, eq_refl, lt}
use xrpl_registrar.Common.Set.{add_each}
use xrpl_registrar.Db.Chunks.{chunks, flatten, chunks_lem}
use xrpl_registrar.Db.Transactions.{Archive, write_rows}
use xrpl_registrar.Discovery.Earliest.{Membership}
use xrpl_registrar.Json.{Value, Record}
use xrpl_registrar.Reconcile.BalanceDeltas.{
  DeltaRow, DeltaTables, StoredDelta, same_key, upsert_delta, upsert_deltas, upsert_chunks,
  ensure_account, ensure_accounts, insert_deltas_many, row_less, flattened,
}
use xrpl_registrar.Reconcile.Deriver.{derive, all_rows, in_scope_meta}

abbrev present : StoredDelta → List StoredDelta → Bool
present r [] = false
present r (x ∷ xs) = same_key x r || present r xs

same_refl : (a : StoredDelta) → same_key a a ≡ true
same_refl a = ground (arith, eq_refl a.row.hash, eq_refl a.row.address)

-- Rows with one key are the same to any third.
same_trans : (a b c : StoredDelta) → same_key a b ≡ true → same_key a c ≡ same_key b c
same_trans a b c h =
    ground (arith, eq_iff a.row.hash b.row.hash, eq_iff a.row.address b.row.address, h)

same_comm : (a b : StoredDelta) → same_key a b ≡ same_key b a
same_comm a b = ground (
  arith,
  eq_iff a.row.hash b.row.hash,
  eq_iff b.row.hash a.row.hash,
  eq_iff a.row.address b.row.address,
  eq_iff b.row.address a.row.address,
)

same_right : (x r s : StoredDelta) → same_key r s ≡ true → same_key x r ≡ same_key x s
same_right x r s h = same_comm x r ∙ same_trans r s x h ∙ same_comm s x

present-upsert_delta :
    (r s : StoredDelta) (t : List StoredDelta)
    → present r t ≡ true
    → present r (upsert_delta s t) ≡ true
unfolding upsert_delta
present-upsert_delta r s [] h = absurd (ground (arith, h))
present-upsert_delta r s (x ∷ xs) h =
    ground (arith, h, same_trans x s r, present-upsert_delta r s xs)

present-upsert_delta_self :
    (r : StoredDelta) (t : List StoredDelta) → present r (upsert_delta r t) ≡ true
unfolding upsert_delta
present-upsert_delta_self r [] = ground (arith, same_refl r)
present-upsert_delta_self r (x ∷ xs) = ground (arith, same_refl r, present-upsert_delta_self r xs)

-- A later write of the same key is all that counts.
upsert_delta_over :
    (r s : StoredDelta) (t : List StoredDelta)
    → same_key r s ≡ true
    → upsert_delta s (upsert_delta r t) ≡ upsert_delta s t
unfolding upsert_delta
upsert_delta_over r s [] h = rw h
upsert_delta_over r s (x ∷ xs) h = ground (arith, h, same_right x r s h, upsert_delta_over r s xs h)

-- Writes of different keys commute, where one of them is no new row.
upsert_delta_comm :
    (r s : StoredDelta) (t : List StoredDelta)
    → same_key r s ≡ false
    → present r t ≡ true
    → upsert_delta s (upsert_delta r t) ≡ upsert_delta r (upsert_delta s t)
unfolding upsert_delta
upsert_delta_comm r s [] h k = absurd (ground (arith, k))
upsert_delta_comm r s (x ∷ xs) h k =
    ground (arith, h, k, same_trans x r s, same_comm s r, upsert_delta_comm r s xs h)

abbrev write_all : List StoredDelta → List StoredDelta → List StoredDelta
write_all rs t = write_rows upsert_delta rs t

present-write_all :
    (r : StoredDelta) (rs t : List StoredDelta)
    → present r t ≡ true
    → present r (write_all rs t) ≡ true
unfolding write_rows
present-write_all r [] t h = h
present-write_all r (s ∷ rs) t h =
    present-write_all r rs (upsert_delta s t) (present-upsert_delta r s t h)

-- A write is lost if its key is written again.
write_all_over :
    (r : StoredDelta) (rs t : List StoredDelta)
    → present r rs ≡ true
    → present r t ≡ true
    → write_all rs (upsert_delta r t) ≡ write_all rs t
unfolding write_rows
write_all_over r [] t m h = absurd (ground (arith, m))
write_all_over r (s ∷ rs) t m h = elim (Bool-cases (same_key r s)) [
  | inl e ↦ ap (write_all rs) (upsert_delta_over r s t e)
  | inr e ↦
      ap (write_all rs) (upsert_delta_comm r s t e h)
      ∙ write_all_over r rs (upsert_delta s t) (ground (arith, m, e, same_comm r s))
          (present-upsert_delta r s t h)
]

-- A row that is in the table stays what it is, if its key is not written again.
settled :
    (r : StoredDelta) (rs t : List StoredDelta)
    → present r rs ≡ false
    → present r t ≡ true
    → upsert_delta r t ≡ t
    → upsert_delta r (write_all rs t) ≡ write_all rs t
unfolding write_rows
settled r [] t m h e = e
settled r (s ∷ rs) t m h e =
    settled r rs (upsert_delta s t) (ground (arith, m)) (present-upsert_delta r s t h)
      (sym (upsert_delta_comm r s t (ground (arith, m, same_comm r s)) h) ∙ ap (upsert_delta s) e)

write_all_again : (rs t : List StoredDelta) → write_all rs (write_all rs t) ≡ write_all rs t
unfolding write_rows
write_all_again [] t = refl
write_all_again (r ∷ rs) t = elim (Bool-cases (present r rs)) [
  | inl m ↦
      write_all_over r rs _ m (present-write_all r rs _ (present-upsert_delta_self r t))
      ∙ write_all_again rs (upsert_delta r t)
  | inr m ↦
      ap (write_all rs)
        (settled r rs _ m (present-upsert_delta_self r t) (upsert_delta_over r r t (same_refl r)))
      ∙ write_all_again rs (upsert_delta r t)
]

abbrev stored : ℕ → DeltaRow → StoredDelta
stored id row = record { issuance_id = id; row = row }

upsert_deltas-write_all :
    (id : ℕ) (rows : List DeltaRow) (t : List StoredDelta)
    → upsert_deltas id rows t ≡ write_all (map (stored id) rows) t
unfolding upsert_deltas write_rows
upsert_deltas-write_all id [] t = refl
upsert_deltas-write_all id (r ∷ rs) t = upsert_deltas-write_all id rs (upsert_delta (stored id r) t)

upsert_deltas-append :
    (id : ℕ) (xs ys : List DeltaRow) (t : List StoredDelta)
    → upsert_deltas id (xs ++ ys) t ≡ upsert_deltas id ys (upsert_deltas id xs t)
unfolding upsert_deltas
upsert_deltas-append id [] ys t = refl
upsert_deltas-append id (x ∷ xs) ys t = upsert_deltas-append id xs ys (upsert_delta (stored id x) t)

upsert_chunks-flatten :
    (id : ℕ) (cs : List (List DeltaRow)) (t : List StoredDelta)
    → upsert_chunks id cs t ≡ upsert_deltas id (flatten cs) t
unfolding upsert_chunks flatten
upsert_chunks-flatten id [] t = unfold upsert_deltas in refl
upsert_chunks-flatten id (c ∷ cs) t =
    upsert_chunks-flatten id cs (upsert_deltas id c t)
    ∙ sym (upsert_deltas-append id c (flatten cs) t)

-- Writing the chunks of some rows twice is writing them once.
upsert_chunks_again :
    (id : ℕ) (rows : List DeltaRow) (t : List StoredDelta)
    → upsert_chunks id (chunks 3 rows) (upsert_chunks id (chunks 3 rows) t)
      ≡ upsert_chunks id (chunks 3 rows) t
upsert_chunks_again id rows t =
    rw (written (upsert_chunks id (chunks 3 rows) t), written t) (write_all_again _ t)
  where
    written :
        (u : List StoredDelta)
        → upsert_chunks id (chunks 3 rows) u ≡ write_all (map (stored id) rows) u
    written u =
        upsert_chunks-flatten id (chunks 3 rows) u
        ∙ ap (λ (rs : List DeltaRow). upsert_deltas id rs u)
            (chunks_lem 3 rows (omega arith) (omega arith)).0
        ∙ upsert_deltas-write_all id rows u

abbrev IsKnown : Dict (Option ℕ) → String → Type 0
IsKnown accounts a = (v : Option ℕ) × (lookup a accounts ≡ some v)

ensure_account-IsKnown :
    (a b : String) (accounts : Dict (Option ℕ))
    → IsKnown accounts b
    → IsKnown (ensure_account a accounts) b
unfolding ensure_account
ensure_account-IsKnown a b accounts (v, h) = elim (Option-cases (lookup a accounts)) [
  | inl e ↦ elim (Bool-cases (eq a b)) [
    | inl same ↦ (none, ground (arith, e, lookup-insert a b none accounts, same))
    | inr other ↦ (v, ground (arith, e, lookup-insert a b none accounts, other, h))
  ]
  | inr (w, e) ↦ (v, ground (arith, e, h))
]

ensure_account-IsKnown_self :
    (a : String) (accounts : Dict (Option ℕ)) → IsKnown (ensure_account a accounts) a
unfolding ensure_account
ensure_account-IsKnown_self a accounts = elim (Option-cases (lookup a accounts)) [
  | inl e ↦ (none, ground (arith, e, lookup-insert_self a none accounts))
  | inr (w, e) ↦ (w, ground (arith, e))
]

ensure_accounts-IsKnown :
    (b : String) (names : List String) (accounts : Dict (Option ℕ))
    → IsKnown accounts b
    → IsKnown (ensure_accounts names accounts) b
unfolding ensure_accounts
ensure_accounts-IsKnown b [] accounts h = h
ensure_accounts-IsKnown b (a ∷ names) accounts h =
    ensure_accounts-IsKnown b names (ensure_account a accounts)
      (ensure_account-IsKnown a b accounts h)

ensure_accounts_All :
    (names : List String) (accounts : Dict (Option ℕ))
    → All (IsKnown (ensure_accounts names accounts)) names
unfolding ensure_accounts
ensure_accounts_All [] accounts = tt
ensure_accounts_All (a ∷ names) accounts = (
  ensure_accounts-IsKnown a names (ensure_account a accounts)
      (ensure_account-IsKnown_self a accounts),
  ensure_accounts_All names (ensure_account a accounts),
)

ensure_accounts_same :
    (names : List String) (accounts : Dict (Option ℕ))
    → All (IsKnown accounts) names
    → ensure_accounts names accounts ≡ accounts
unfolding ensure_accounts ensure_account
ensure_accounts_same [] accounts h = refl
ensure_accounts_same (a ∷ names) accounts ((v, h), hs) =
    rw (h, ensure_account) (ensure_accounts_same names accounts hs)

ensure_accounts_again :
    (names : List String) (accounts : Dict (Option ℕ))
    → ensure_accounts names (ensure_accounts names accounts) ≡ ensure_accounts names accounts
ensure_accounts_again names accounts =
    ensure_accounts_same names _ (ensure_accounts_All names accounts)

abbrev tables : Dict (Option ℕ) → List StoredDelta → DeltaTables
tables accounts balance_deltas = record { accounts = accounts; balance_deltas = balance_deltas }

tables_again :
    (names : List String) (id : ℕ) (rows : List DeltaRow) (t : DeltaTables)
    → let written =
        tables
          (ensure_accounts names t.accounts)
          (upsert_chunks id (chunks 3 rows) t.balance_deltas) in
      tables
        (ensure_accounts names written.accounts)
        (upsert_chunks id (chunks 3 rows) written.balance_deltas)
      ≡ written
tables_again names id rows t = λ i.
    tables (ensure_accounts_again names t.accounts i)
      (upsert_chunks_again id rows t.balance_deltas i)

insert_deltas_many_again :
    (id : ℕ) (rows : List DeltaRow) (t : DeltaTables)
    → insert_deltas_many id rows (insert_deltas_many id rows t) ≡ insert_deltas_many id rows t
unfolding insert_deltas_many
insert_deltas_many_again id [] t = refl
insert_deltas_many_again id (r ∷ rs) t =
    tables_again
      (flattened (chunks 1 (sort (λ a b. lt a b) (add_each (map (λ d. d.address) (r ∷ rs)) [])))) id
      (sort row_less (r ∷ rs)) t

-- Deriving an issuance's deltas again, from the tables that a derivation left, writes as many rows
-- and leaves the tables as they are: no delta changes and no account is added.
pub derive_again :
    (decode : String → Option Value) (deltas : Record → Option (List (String × String)))
    (archive : Archive) (members : List Membership) (issuance_id : ℕ) (before after : DeltaTables)
    (n : ℕ)
    → derive decode deltas archive members issuance_id before ≡ some (after, n)
    → derive decode deltas archive members issuance_id after ≡ some (after, n)
unfolding derive
derive_again decode deltas archive members issuance_id before after n h =
    elim (Option-cases (all_rows decode deltas (in_scope_meta archive members issuance_id))) [
      | inl e ↦ absurd (ground (arith, h, e))
      | inr (rows, e) ↦ ground (arith, h, e, insert_deltas_many_again issuance_id rows before)
    ]
