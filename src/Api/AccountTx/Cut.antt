-- ===== src/Api/AccountTx/Cut.antt =====
-- The page that is cut off a list of rows, one row more of which was read than the page holds.
use xrpl_registrar.Common.{
  ℕ, zero, suc, ◌≤◌, ◌<◌, ◌≡◌, refl, sym, ap, ◌∙◌, true, none, some, List, [], ◌∷◌, ◌++◌, arith,
  ltb, length, length-append, take, last,
}
use xrpl_registrar.Api.AccountTx.{page_of}
use xrpl_registrar.Db.Transactions.{TransactionRow}

-- A prefix of the rows that fills a page, the row that it ends with, and what is left.
pub record IsCut (limit : ℕ) (rows : List TransactionRow) : Type 0 where
  pub before : List TransactionRow
  pub end_row : TransactionRow
  pub rest : List TransactionRow
  pub parts : rows ≡ before ++ end_row ∷ rest
  pub shorter : length rest < length rows
  pub page : page_of limit (take (suc limit) rows) ≡ (before ++ end_row ∷ [], some end_row)

take_all : (n : ℕ) (rows : List TransactionRow) → length rows ≤ n → take n rows ≡ rows
take_all zero [] h = refl
take_all zero (r ∷ rs) h = absurd (omega arith)
take_all (suc n) [] h = refl
take_all (suc n) (r ∷ rs) h = ap (λ ts. r ∷ ts) (take_all n rs (omega arith))

pub page_of_short :
    (limit : ℕ) (rows : List TransactionRow)
    → length rows ≤ limit
    → page_of limit (take (suc limit) rows) ≡ (rows, none)
unfolding page_of
page_of_short limit rows h = rw (take_all (suc limit) rows (omega arith)) (ground arith)

take_shorter : (n : ℕ) (rows : List TransactionRow) → take n (take (suc n) rows) ≡ take n rows
take_shorter zero rows = refl
take_shorter (suc n) [] = refl
take_shorter (suc n) (r ∷ rs) = ap (λ ts. r ∷ ts) (take_shorter n rs)

take-append :
    (before : List TransactionRow) (x : TransactionRow) (rest : List TransactionRow)
    → take (suc (length before)) (before ++ x ∷ rest) ≡ before ++ x ∷ []
take-append [] x rest = refl
take-append (b ∷ before) x rest = ap (λ ts. b ∷ ts) (take-append before x rest)

last-append : (before : List TransactionRow) (x : TransactionRow) → last (before ++ x ∷ []) ≡ some x
last-append [] x = refl
last-append (a ∷ []) x = refl
last-append (a ∷ (b ∷ before)) x = last-append (b ∷ before) x

length-take : (n : ℕ) (rows : List TransactionRow) → n ≤ length rows → length (take n rows) ≡ n
length-take zero rows h = refl
length-take (suc n) [] h = absurd (omega arith)
length-take (suc n) (r ∷ rs) h = ap suc (length-take n rs (omega arith))

split_at :
    (k : ℕ) (rows : List TransactionRow)
    → k < length rows
    → (before : List TransactionRow) × (x : TransactionRow) × (rest : List TransactionRow) × (rows
        ≡ before ++ x ∷ rest)
      × (length before ≡ k)
split_at k [] h = absurd (omega arith)
split_at zero (r ∷ rs) h = ([], r, rs, refl, refl)
split_at (suc k) (r ∷ rs) h =
    let (before, x, rest, e, l) = split_at k rs (omega arith) in
    (r ∷ before, x, rest, ap (λ ts. r ∷ ts) e, ap suc l)

page_of_full :
    (limit : ℕ) (rows : List TransactionRow)
    → limit < length rows
    → page_of limit (take (suc limit) rows) ≡ (take limit rows, last (take limit rows))
unfolding page_of
page_of_full limit rows h =
    let more : ltb limit (length (take (suc limit) rows)) ≡ true =
      ground (arith, length-take (suc limit) rows) in
    rw (more, take_shorter limit rows) refl

pub page_of_long : (k : ℕ) (rows : List TransactionRow) → suc k < length rows → IsCut (suc k) rows
page_of_long k rows h =
    let (before, x, rest, e, l) = split_at k rows (omega arith) in
    let page : take (suc k) rows ≡ before ++ x ∷ [] =
      ap (take (suc k)) e ∙ rw (sym l) (take-append before x rest) in
    record {
      before = before;
      end_row = x;
      rest = rest;
      parts = e;
      shorter = omega (arith, ap length e, length-append before (x ∷ rest));
      page = page_of_full (suc k) rows h ∙ rw (page, last-append before x) refl;
    }
