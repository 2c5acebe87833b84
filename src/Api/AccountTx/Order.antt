-- ===== src/Api/AccountTx/Order.antt =====
-- The order of the rows, and the rows of a table with a primary key on the hash.
use xrpl_registrar.Common.{
  ◌≡◌, inl, inr, Bool, true, false, ◌||◌, List, [], ◌∷◌, arith, Bool-cases, keep_if, All,
}
use xrpl_registrar.Common.Strict.{Distinct, All-keep_if}
use xrpl_registrar.Common.Text.{eq, eq_iff}
use xrpl_registrar.Common.TextOrder.{lt_trans, lt_asymm, lt_total}
use xrpl_registrar.Api.AccountTx.{Cursor, key_less, comes_before, key_of, row_before}
use xrpl_registrar.Db.Transactions.{TransactionRow}

key_less_trans : (a b c : Cursor) → key_less a b ≡ true → key_less b c ≡ true → key_less a c ≡ true
unfolding key_less
key_less_trans a b c h k = ground (arith, lt_trans a.hash b.hash c.hash)

key_less_asymm : (a b : Cursor) → key_less a b ≡ true → key_less b a ≡ false
unfolding key_less
key_less_asymm a b h = ground (arith, lt_asymm a.hash b.hash)

key_less_total : (a b : Cursor) → eq a.hash b.hash ≡ false → (key_less a b || key_less b a) ≡ true
unfolding key_less
key_less_total a b h = ground (arith, lt_total a.hash b.hash)

pub row_before_trans :
    (up : Bool) (a b c : TransactionRow)
    → row_before up a b ≡ true
    → row_before up b c ≡ true
    → row_before up a c ≡ true
unfolding comes_before
row_before_trans true a b c h k = key_less_trans (key_of a) (key_of b) (key_of c) h k
row_before_trans false a b c h k = key_less_trans (key_of c) (key_of b) (key_of a) k h

pub row_before_asymm :
    (up : Bool) (a b : TransactionRow) → row_before up a b ≡ true → row_before up b a ≡ false
unfolding comes_before
row_before_asymm true a b h = key_less_asymm (key_of a) (key_of b) h
row_before_asymm false a b h = key_less_asymm (key_of b) (key_of a) h

row_before_total :
    (up : Bool) (a b : TransactionRow)
    → eq a.hash b.hash ≡ false
    → (row_before up a b || row_before up b a) ≡ true
unfolding comes_before
row_before_total true a b h = key_less_total (key_of a) (key_of b) h
row_before_total false a b h =
    key_less_total (key_of b) (key_of a)
      (ground (arith, eq_iff a.hash b.hash, eq_iff b.hash a.hash))

-- The primary key of `transactions`.
abbrev pub HasUniqueHashes : List TransactionRow → Type 0
HasUniqueHashes [] = Unit
HasUniqueHashes (r ∷ rs) = All (λ s. eq r.hash s.hash ≡ false) rs × HasUniqueHashes rs

pub HasUniqueHashes-keep_if :
    (p : TransactionRow → Bool) (rs : List TransactionRow)
    → HasUniqueHashes rs
    → HasUniqueHashes (keep_if p rs)
HasUniqueHashes-keep_if p [] h = tt
HasUniqueHashes-keep_if p (r ∷ rs) (h, hs) = elim (Bool-cases (p r)) [
  | inl e ↦
      rw e (All-keep_if (λ s. eq r.hash s.hash ≡ false) p rs h, HasUniqueHashes-keep_if p rs hs)
  | inr e ↦ rw e (HasUniqueHashes-keep_if p rs hs)
]

All-apart :
    (up : Bool) (r : TransactionRow) (rs : List TransactionRow)
    → All (λ s. eq r.hash s.hash ≡ false) rs
    → All (λ s. (row_before up r s || row_before up s r) ≡ true) rs
All-apart up r [] h = tt
All-apart up r (s ∷ rs) (h, hs) = (row_before_total up r s h, All-apart up r rs hs)

pub HasUniqueHashes-Distinct :
    (up : Bool) (rs : List TransactionRow) → HasUniqueHashes rs → Distinct (row_before up) rs
HasUniqueHashes-Distinct up [] h = tt
HasUniqueHashes-Distinct up (r ∷ rs) (h, hs) =
    (All-apart up r rs h, HasUniqueHashes-Distinct up rs hs)
