-- ===== src/Reconcile/Reconciler.antt =====
-- src/reconcile/reconciler.ts: the comparison of derived and reconstructed balances, over the
-- accounts in scope. A bigint is printed by a parameter, as the language prints it.
pub mod Agreement
use xrpl_registrar.Common.{
  ℕ, zero, ◌+◌, String, Bool, true, false, not, List, [], ◌∷◌, ◌++◌, if◌then◌else◌, or_else, length,
}
use xrpl_registrar.Common.Dict.{Dict, lookup, keys}
use xrpl_registrar.Common.Int.{ℤ, pos, eq_ℤ}
use xrpl_registrar.Common.Sort.{sort}
use xrpl_registrar.Common.Text.{lt, one_of}
use xrpl_registrar.Reconcile.Iou.{Decimals}

pub record Discrepancy : Type 0 where
  pub account : String
  pub derived : String
  pub reconstructed : String

pub record ReconciliationReport : Type 0 where
  pub run_id : ℕ
  pub issuance_id : ℕ
  pub passed : Bool
  pub discrepancies : List Discrepancy

-- The rows of `reconciliation_run`: the issuance, the verdict and the count.
pub record Runs : Type 0 where
  pub rows : List (ℕ × Bool × ℕ)
  pub next_id : ℕ

-- `[...new Set(xs)]`
unfoldable pub distinct : List String → List String → List String
distinct seen [] = []
distinct seen (x ∷ xs) = if one_of x seen then distinct seen xs else x ∷ distinct (x ∷ seen) xs

-- `map.get(account) ?? 0n`
abbrev pub balance : Dict ℤ → String → ℤ
balance m account = or_else (lookup account m) (pos 0)

-- `restrict`
unfoldable pub restrict {ℓ} : {A : Type ℓ} → List String → Dict A → Dict A
restrict set [] = []
restrict set ((k, v) ∷ m) = if one_of k set then (k, v) ∷ restrict set m else restrict set m

-- `discrepancies.length === 0`
abbrev is_empty : List Discrepancy → Bool
is_empty [] = true
is_empty (d ∷ ds) = false

-- `#record`
unfoldable pub record_run : ℕ → List Discrepancy → Runs → Runs × ReconciliationReport
record_run issuance_id found runs = (
  record {
    rows = runs.rows ++ (issuance_id, is_empty found, length found) ∷ [];
    next_id = runs.next_id + 1;
  },
  record {
    run_id = runs.next_id;
    issuance_id = issuance_id;
    passed = is_empty found;
    discrepancies = found;
  },
)

module _ (print : ℤ → String) where
  unfoldable pub compare_each : Dict ℤ → Dict ℤ → List String → List Discrepancy
  compare_each derived reconstructed [] = []
  compare_each derived reconstructed (a ∷ rest) =
      let d = balance derived a in
      let r = balance reconstructed a in
      let later = compare_each derived reconstructed rest in
      if not (eq_ℤ d r)
      then record { account = a; derived = print d; reconstructed = print r } ∷ later
      else later

  unfoldable pub compare_balances : Dict ℤ → Dict ℤ → List Discrepancy
  unfolding compare_each distinct
  compare_balances derived reconstructed =
      compare_each derived reconstructed
        (sort (λ a b. lt a b) (distinct [] (keys derived ++ keys reconstructed)))

  -- `runMpt`, from the two balance maps and the accounts in scope.
  unfoldable pub run_mpt : ℕ → Dict ℤ → Dict ℤ → List String → Runs → Runs × ReconciliationReport
  unfolding compare_balances restrict record_run
  run_mpt issuance_id derived reconstructed in_scope runs =
      record_run issuance_id
        (compare_balances (restrict in_scope derived) (restrict in_scope reconstructed)) runs

module _ {B : Type 0} (big : Decimals B) where
  abbrev decimal_balance : Dict B → String → B
  decimal_balance m account = or_else (lookup account m) big.zero

  unfoldable pub compare_each_decimal : Dict B → Dict B → List String → List Discrepancy
  compare_each_decimal derived reconstructed [] = []
  compare_each_decimal derived reconstructed (a ∷ rest) =
      let d = decimal_balance derived a in
      let r = decimal_balance reconstructed a in
      let later = compare_each_decimal derived reconstructed rest in
      if not (big.equal d r)
      then record { account = a; derived = big.print d; reconstructed = big.print r } ∷ later
      else later

  unfoldable pub compare_decimal_balances : Dict B → Dict B → List Discrepancy
  unfolding compare_each_decimal distinct
  compare_decimal_balances derived reconstructed =
      compare_each_decimal derived reconstructed
        (sort (λ a b. lt a b) (distinct [] (keys derived ++ keys reconstructed)))

  -- `runIou`, likewise.
  unfoldable pub run_iou : ℕ → Dict B → Dict B → List String → Runs → Runs × ReconciliationReport
  unfolding compare_decimal_balances restrict record_run
  run_iou issuance_id derived reconstructed in_scope runs =
      record_run issuance_id
        (compare_decimal_balances (restrict in_scope derived) (restrict in_scope reconstructed))
        runs
