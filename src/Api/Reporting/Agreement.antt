-- ===== src/Api/Reporting/Agreement.antt =====
-- The two reporting methods agree: an account's later balance is its earlier balance and what is
-- listed in between.
use mathlib.Core.List.{Perm, map-append, perm_middle}
use mathlib.Core.List.Perm
use xrpl_registrar.Common.{
  ℕ, suc, ◌≤◌, String, ◌≡◌, refl, ap, ◌∙◌, ◌⊎◌, inl, inr, Bool, true, false, ◌&&◌, ◌||◌, Option,
  none, some, List, [], ◌∷◌, ◌++◌, map, arith, Bool-cases, or_else, keep_if,
}
use xrpl_registrar.Common.Int.{ℤ, pos}
use xrpl_registrar.Common.Sort.{sort, insert_sorted}
use xrpl_registrar.Common.Text.{eq}
use xrpl_registrar.Api.Reporting.{
  ReportDb, ResolvedIssuance, Entry, Range, range, at, issuance_identity, resolve_issuance,
  resolve_ledger, resolve_range, in_issuance_scope, entries_until, listed_entries, joined_entries,
  entry_less, entry_value, transactions_answer, balance_answer, balance_of, handle_transactions,
  handle_balance_at,
}
use xrpl_registrar.Api.Responses.{ApiRequest, MethodResult}
use xrpl_registrar.Api.Scope.{to_items}
use xrpl_registrar.Db.Issuances.{IssuanceKind, mpt, iou}
use xrpl_registrar.Json.{
  Value, Fields, items, get, get_string, truthy, and_then, as_array, as_record, as_string,
}

module _ {ℓ} {A : Type ℓ} where
  insert_sorted-Perm :
      (less : A → A → Bool) (x : A) (xs : List A) → Perm (insert_sorted less x xs) (x ∷ xs)
  unfolding insert_sorted
  insert_sorted-Perm less x [] = Perm.refl _
  insert_sorted-Perm less x (y ∷ ys) = elim (Bool-cases (less y x)) [
    | inl e ↦ rw e (Perm.trans (Perm.cons y (insert_sorted-Perm less x ys)) (Perm.swap x y ys))
    | inr e ↦ rw e (Perm.refl _)
  ]

  sort-Perm : (less : A → A → Bool) (xs : List A) → Perm (sort less xs) xs
  unfolding sort
  sort-Perm less [] = Perm.refl _
  sort-Perm less (x ∷ xs) =
      Perm.trans (insert_sorted-Perm less x (sort less xs)) (Perm.cons x (sort-Perm less xs))

  -- A test that is the disjoint union of two parts a list into what these keep.
  keep_if-Perm :
      (p q r : A → Bool)
      → ((x : A) → p x ≡ (q x || r x))
      → ((x : A) → (q x && r x) ≡ false)
      → (xs : List A) → Perm (keep_if p xs) (keep_if q xs ++ keep_if r xs)
  keep_if-Perm p q r u d [] = Perm.refl _
  keep_if-Perm p q r u d (x ∷ xs) = elim (Bool-cases (q x)) [
    | inl e ↦ rw (yes_p x (inl e), e, no_r x e) (Perm.cons x (keep_if-Perm p q r u d xs))
    | inr e ↦ elim (Bool-cases (r x)) [
      | inl k ↦
          rw (yes_p x (inr k), e, k)
            (Perm.trans (Perm.cons x (keep_if-Perm p q r u d xs))
              (Perm.symm (perm_middle (keep_if q xs) (keep_if r xs))))
      | inr k ↦ rw (no_p x e k, e, k) (keep_if-Perm p q r u d xs)
    ]
  ]
    where
      yes_p : (x : A) → (q x ≡ true) ⊎ (r x ≡ true) → p x ≡ true
      yes_p x h = ground (arith, u x, h)

      no_p : (x : A) → q x ≡ false → r x ≡ false → p x ≡ false
      no_p x h k = ground (arith, u x)

      no_r : (x : A) → q x ≡ true → r x ≡ false
      no_r x h = ground (arith, d x)

kind_cases : (k : IssuanceKind) → (k ≡ mpt) ⊎ (k ≡ iou)
kind_cases mpt = inl refl
kind_cases iou = inr refl

-- The deltas that an answer of `archive_transactions` lists.
abbrev pub delta_text : Value → String
delta_text v = or_else (and_then (as_record v) (get_string "delta")) ""

abbrev pub listed_deltas : Fields → List String
listed_deltas result = map delta_text (or_else (and_then (get "transactions" result) as_array) [])

abbrev deltas : List Entry → List String
deltas = map (λ e. e.delta)

delta_texts : (es : List Entry) → map delta_text (items (to_items (map entry_value es))) ≡ deltas es
unfolding entry_value get as_record as_string eq
delta_texts [] = refl
delta_texts (e ∷ es) = rw (delta_texts es)

listed_deltas-answer :
    (db : ReportDb) (r : Range)
    → listed_deltas (transactions_answer db r)
      ≡ deltas (listed_entries db r.issuance.id r.from_ledger r.to_ledger r.account)
unfolding transactions_answer issuance_identity get as_array eq
listed_deltas-answer db r = elim (kind_cases r.issuance.kind) [
  | inl e ↦ rw e (delta_texts _)
  | inr e ↦ rw e (delta_texts _)
]

entries_until-Perm :
    (db : ReportDb) (id : ℕ) (account : String) (a b : ℕ)
    → a ≤ b
    → Perm (entries_until db id account (pos b)) (
        entries_until db id account (pos a)
        ++ listed_entries db id (pos (suc a)) (pos b) (some account))
unfolding entries_until listed_entries
entries_until-Perm db id account a b h =
    Perm.trans
      (keep_if-Perm _ _ _ (λ e. ground arith) (λ e. ground arith)
        (joined_entries db.balance_deltas db.read.archive.transactions))
      (Perm.append_left _ (Perm.symm (sort-Perm entry_less _)))

-- The text that an answer of `archive_balance_at` gives as the balance.
abbrev pub stated_balance : Fields → Option String
stated_balance result = and_then (get "balance" result) as_string

module _ (sum : List String → String) where
  stated_balance-answer :
      (db : ReportDb) (iss : ResolvedIssuance) (account : String) (ledger : ℤ)
      → stated_balance (balance_answer sum db iss account ledger).result
        ≡ some (balance_of sum (deltas (entries_until db iss.id account ledger)))
  unfolding balance_answer issuance_identity get as_string eq
  stated_balance-answer db iss account ledger = elim (kind_cases iss.kind) [
    | inl e ↦ rw e refl
    | inr e ↦ rw e refl
  ]

  module _ (plus : String → String → String)
      (order : (xs ys : List String) → Perm xs ys → balance_of sum xs ≡ balance_of sum ys)
      (split : (xs ys : List String)
        → balance_of sum (xs ++ ys) ≡ plus (balance_of sum xs) (balance_of sum ys)) where
    balance_of-entries :
        (db : ReportDb) (id : ℕ) (account : String) (a b : ℕ)
        → a ≤ b
        → balance_of sum (deltas (entries_until db id account (pos b)))
          ≡ plus
              (balance_of sum (deltas (entries_until db id account (pos a))))
              (balance_of sum (deltas (listed_entries db id (pos (suc a)) (pos b) (some account))))
    balance_of-entries db id account a b h =
        order _ _ (Perm.map (λ e. e.delta) (entries_until-Perm db id account a b h))
        ∙ ap (balance_of sum) (map-append (λ (e : Entry). e.delta) _ _)
        ∙ split _ _

    module _ (resolve_time : String → Option ℕ) (db : ReportDb) (iss : ResolvedIssuance)
        (account : String) where
      stated_balance-handle :
          (req : ApiRequest) (ledger : ℤ)
          → resolve_issuance db req.fields ≡ some iss
          → truthy (get_string "account" req.fields) ≡ some account
          → resolve_ledger resolve_time db req.fields "ledger_index" "date" none ≡ at ledger
          → in_issuance_scope db iss.id account ≡ true
          → stated_balance (handle_balance_at resolve_time sum db req).result
            ≡ some (balance_of sum (deltas (entries_until db iss.id account ledger)))
      unfolding handle_balance_at
      stated_balance-handle req ledger i n l s =
          ap (λ (r : MethodResult). stated_balance r.result) answered
          ∙ stated_balance-answer db iss account ledger
        where
          answered :
              handle_balance_at resolve_time sum db req ≡ balance_answer sum db iss account ledger
          answered = rw (i, n, l, s, handle_balance_at)

      listed_deltas-handle :
          (req : ApiRequest) (r : Range)
          → resolve_range resolve_time db req.fields ≡ range r
          → listed_deltas (handle_transactions resolve_time db req).result
            ≡ deltas (listed_entries db r.issuance.id r.from_ledger r.to_ledger r.account)
      unfolding handle_transactions
      listed_deltas-handle req r h =
          ap (λ (m : MethodResult). listed_deltas m.result) answered ∙ listed_deltas-answer db r
        where
          answered :
              handle_transactions resolve_time db req
              ≡ record { result = transactions_answer db r; extra_warnings = [] }
          answered = rw (h, handle_transactions)

      -- A statement balances: where an account's balance in an issuance is asked as of two ledgers
      -- and its transactions from after the first to the second, all of them in scope, the later
      -- balance is the earlier one plus the sum of the deltas that are listed.
      pub balance_at-transactions :
          (opening closing listing : ApiRequest) (a b : ℕ)
          → a ≤ b
          → in_issuance_scope db iss.id account ≡ true
          → resolve_issuance db opening.fields ≡ some iss
          → truthy (get_string "account" opening.fields) ≡ some account
          → resolve_ledger resolve_time db opening.fields "ledger_index" "date" none ≡ at (pos a)
          → resolve_issuance db closing.fields ≡ some iss
          → truthy (get_string "account" closing.fields) ≡ some account
          → resolve_ledger resolve_time db closing.fields "ledger_index" "date" none ≡ at (pos b)
          → resolve_range resolve_time db listing.fields
            ≡ range (record {
              issuance = iss;
              from_ledger = pos (suc a);
              to_ledger = pos b;
              account = some account;
            })
          → stated_balance (handle_balance_at resolve_time sum db closing).result
            ≡ some (
                plus
                  (or_else
                    (stated_balance (handle_balance_at resolve_time sum db opening).result)
                    "")
                  (balance_of sum
                    (listed_deltas (handle_transactions resolve_time db listing).result)))
      balance_at-transactions opening closing listing a b h s oi on ol ci cn cl r =
          rw (stated_balance-handle opening (pos a) oi on ol s, listed_deltas-handle listing _ r)
            (stated_balance-handle closing (pos b) ci cn cl s
              ∙ ap some (balance_of-entries db iss.id account a b h))
