-- ===== src/Api/AccountTx/Paging.antt =====
-- A client that follows the markers, and the whole answer that the pages are taken from.
use xrpl_registrar.Common.{
  ℕ, zero, suc, ◌-◌, ◌≤◌, ◌<◌, String, ◌≡◌, refl, sym, ap, ◌∙◌, subst, inl, inr, true, false, ◌&&◌,
  Option, none, some, List, [], ◌∷◌, ◌++◌, arith, ltb, leb, Bool-cases, length, take, keep_if, All,
}
use mathlib.Core.List.{append_assoc}
use xrpl_registrar.Common.Sort.{sort}
use xrpl_registrar.Common.Strict.{
  Strict, sort-Strict, keep_if-sort, keep_if_after, keep_if-All, All-sort, All-keep_if, All-middle,
}
use xrpl_registrar.Common.Text.{eq}
use xrpl_registrar.Api.AccountTx.{
  TxQuery, select_rows, select_page, page_of, past, row_before, parse_marker, print_marker, printed,
  query_of, clamp_limit,
}
use xrpl_registrar.Api.AccountTx.Cut.{page_of_short, page_of_long}
use xrpl_registrar.Api.AccountTx.Marker.{has_colon, parse_marker-print_marker}
use xrpl_registrar.Api.AccountTx.Order.{
  HasUniqueHashes, HasUniqueHashes-keep_if, HasUniqueHashes-Distinct, row_before_trans,
  row_before_asymm,
}
use xrpl_registrar.Api.Scope.{ReadDb, account_rows}
use xrpl_registrar.Db.Transactions.{TransactionRow}
use xrpl_registrar.Json.{Value, Fields, string, get}

-- The account's rows in the interval.
unfoldable pub rows_in_range : ReadDb → TxQuery → List TransactionRow
rows_in_range db q =
    keep_if (λ t. leb q.lo t.ledger_index && leb t.ledger_index q.hi) (account_rows db q.account)

-- The whole answer, in order and without pages.
unfoldable pub whole_answer : ReadDb → TxQuery → List TransactionRow
whole_answer db q = sort (row_before q.ascending) (rows_in_range db q)

abbrev joined_to : List TransactionRow → Option (List TransactionRow) → Option (List TransactionRow)
joined_to page none = none
joined_to page (some rest) = some (page ++ rest)

module _ (print : ℕ → String) (to_number : String → Option ℕ) (decode : String → Value) where
  -- Requests with the marker of the page before, until there is none.
  unfoldable pub pages : ℕ → ReadDb → TxQuery → Option Value → Option (List TransactionRow)
  pages zero db q marker = none
  pages (suc fuel) db q marker =
      let (page, next) = select_page print to_number decode db q marker in
      elim next [ none ↦ some page | some m ↦ joined_to page (pages fuel db q (some (string m))) ]

  abbrev marked : List TransactionRow × Option TransactionRow → List TransactionRow × Option String
  marked (page, end_row) = (page, printed print to_number decode end_row)

  -- What a request with this marker has to answer from.
  abbrev left_at : ReadDb → TxQuery → Option Value → List TransactionRow
  left_at db q marker =
      sort (row_before q.ascending) (
        keep_if (past q.ascending (parse_marker print to_number decode marker))
          (rows_in_range db q))

  select_page-left_at :
      (db : ReadDb) (q : TxQuery) (marker : Option Value) (rest : List TransactionRow)
      → left_at db q marker ≡ rest
      → select_page print to_number decode db q marker
        ≡ marked (page_of q.limit (take (suc q.limit) rest))
  unfolding select_page select_rows rows_in_range
  select_page-left_at db q marker rest e =
      ap (λ rs. marked (page_of q.limit (take (suc q.limit) rs))) e

  abbrev answered :
      ReadDb → TxQuery → ℕ → List TransactionRow × Option String → Option (List TransactionRow)
  answered db q fuel (page, none) = some page
  answered db q fuel (page, some m) = joined_to page (pages fuel db q (some (string m)))

  pages_step :
      (fuel : ℕ) (db : ReadDb) (q : TxQuery) (marker : Option Value)
      → pages (suc fuel) db q marker
        ≡ answered db q fuel (select_page print to_number decode db q marker)
  unfolding pages
  pages_step fuel db q marker = chosen (select_page print to_number decode db q marker)
    where
      chosen :
          (a : List TransactionRow × Option String)
          → elim a.1 [
            | none ↦ some a.0
            | some m ↦ joined_to a.0 (pages fuel db q (some (string m)))
          ]
            ≡ answered db q fuel a
      chosen (page, none) = refl
      chosen (page, some m) = refl

  module _ (print-to_number : (n : ℕ) → to_number (print n) ≡ some n)
      (print-has_colon : (n : ℕ) → has_colon (print n) ≡ false) (db : ReadDb) (q : TxQuery)
      (keyed : HasUniqueHashes db.archive.transactions)
      (hashed : All (λ r. eq r.hash "" ≡ false) db.archive.transactions) where
    keyed_range : HasUniqueHashes (rows_in_range db q)
    unfolding rows_in_range account_rows
    keyed_range = HasUniqueHashes-keep_if _ _ (HasUniqueHashes-keep_if _ _ keyed)

    hashed_whole : All (λ r. eq r.hash "" ≡ false) (whole_answer db q)
    unfolding rows_in_range account_rows whole_answer
    hashed_whole =
        All-sort (row_before q.ascending) (λ r. eq r.hash "" ≡ false) _
          (All-keep_if _ _ _ (All-keep_if _ _ _ hashed))

    left_after :
        (done : List TransactionRow) (x : TransactionRow) (rest : List TransactionRow)
        → whole_answer db q ≡ done ++ x ∷ rest
        → left_at db q (some (string (print_marker print to_number decode x))) ≡ rest
    unfolding past whole_answer
    left_after done x rest w =
        let up = q.ascending in
        let distinct = HasUniqueHashes-Distinct up (rows_in_range db q) keyed_range in
        let hash =
          All-middle (λ r. eq r.hash "" ≡ false) done x rest
            (subst (All (λ r. eq r.hash "" ≡ false)) w hashed_whole) in
        ap (λ c. sort (row_before up) (keep_if (past up c) (rows_in_range db q)))
          (parse_marker-print_marker print to_number decode print-to_number print-has_colon x hash)
        ∙ sym (
            keep_if-sort (row_before up) (row_before_trans up) (row_before_asymm up)
              (row_before up x) (rows_in_range db q) distinct)
        ∙ ap (keep_if (row_before up x)) w
        ∙ keep_if_after (row_before up) (row_before_trans up) (row_before_asymm up) done x rest (
            subst (Strict (row_before up)) w
              (sort-Strict (row_before up) (row_before_trans up) (rows_in_range db q) distinct))

    pages_rest :
        (fuel : ℕ) (limit : ℕ) (marker : Option Value) (done rest : List TransactionRow)
        → q.limit ≡ suc limit
        → whole_answer db q ≡ done ++ rest
        → left_at db q marker ≡ rest
        → length rest < fuel
        → pages fuel db q marker ≡ some rest
    pages_rest zero limit marker done rest l w e h = absurd (omega arith)
    pages_rest (suc fuel) limit marker done rest l w e h =
        elim (Bool-cases (ltb (suc limit) (length rest))) [
          | inl more ↦
              let cut = page_of_long limit rest (ground arith) in
              let split : whole_answer db q ≡ (done ++ cut.before) ++ cut.end_row ∷ cut.rest =
                w
                ∙ ap (λ rs. done ++ rs) cut.parts
                ∙ sym (append_assoc done cut.before (cut.end_row ∷ cut.rest)) in
              let later =
                pages_rest fuel limit
                  (some (string (print_marker print to_number decode cut.end_row)))
                  ((done ++ cut.before) ++ cut.end_row ∷ []) cut.rest l
                  (split ∙ sym (append_assoc (done ++ cut.before) (cut.end_row ∷ []) cut.rest))
                  (left_after (done ++ cut.before) cut.end_row cut.rest split)
                  (omega (arith, cut.shorter)) in
              pages_step fuel db q marker
              ∙ ap (answered db q fuel) (
                  select_page-left_at db q marker rest e
                  ∙ ap marked (ap (λ n. page_of n (take (suc n) rest)) l ∙ cut.page))
              ∙ ap (joined_to (cut.before ++ cut.end_row ∷ [])) later
              ∙ ap some (append_assoc cut.before (cut.end_row ∷ []) cut.rest ∙ sym cut.parts)
          | inr fits ↦
              pages_step fuel db q marker
              ∙ ap (answered db q fuel) (
                  select_page-left_at db q marker rest e
                  ∙ ap marked (
                      ap (λ n. page_of n (take (suc n) rest)) l
                      ∙ page_of_short (suc limit) rest (ground arith)))
        ]

    -- A request without a marker answers from the whole.
    left_first : left_at db q none ≡ whole_answer db q
    unfolding whole_answer past parse_marker
    left_first = ap (sort (row_before q.ascending)) (keep_if-All _ _ (always (rows_in_range db q)))
      where
        always : (rs : List TransactionRow) → All (λ r. past q.ascending none r ≡ true) rs
        always [] = tt
        always (r ∷ rs) = (refl, always rs)

clamp_limit_positive : (value : Option Value) → 1 ≤ clamp_limit value
unfolding clamp_limit
clamp_limit_positive value = ground arith

module _ (print : ℕ → String) (to_number : String → Option ℕ) (decode : String → Value)
    (print-to_number : (n : ℕ) → to_number (print n) ≡ some n)
    (print-has_colon : (n : ℕ) → has_colon (print n) ≡ false) where
  -- Following the markers of account_tx from the first page on, whatever the request's interval,
  -- order and limit, gives the whole answer: every row of the account in the interval, once and in
  -- order, and the last page has no marker. The rows' hashes are a primary key and not empty.
  pub pages-whole_answer :
      (db : ReadDb) (account : String) (fields : Fields)
      → HasUniqueHashes db.archive.transactions
      → All (λ r. eq r.hash "" ≡ false) db.archive.transactions
      → pages print to_number decode
          (suc (length (whole_answer db (query_of db account fields))))
          db
          (query_of db account fields)
          none
        ≡ some (whole_answer db (query_of db account fields))
  unfolding query_of
  pages-whole_answer db account fields keyed hashed =
      let q = query_of db account fields in
      let positive = clamp_limit_positive (get "limit" fields) in
      pages_rest print to_number decode print-to_number print-has_colon db q keyed hashed
        (suc (length (whole_answer db q))) (q.limit - 1) none [] (whole_answer db q)
        (omega (arith, positive)) refl
        (left_first print to_number decode print-to_number print-has_colon db q keyed hashed)
        (omega arith)
