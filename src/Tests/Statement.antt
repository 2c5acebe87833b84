-- ===== src/Tests/Statement.antt =====
-- The reporting methods at concrete inputs. Amounts are in unary, as "0" and a stroke for each unit.
use mathlib.Core.List.{Perm, foldr}
use mathlib.Core.List.Perm
use native.Mathlib.Nat.{ℕ_set}
use xrpl_registrar.Common.{
  ℕ, ◌+◌, ◌-◌, String, ◌≡◌, refl, ap, ◌∙◌, true, Option, none, some, List, [], ◌∷◌, ◌++◌, arith,
  or_else,
}
use xrpl_registrar.Common.Int.{pos}
use xrpl_registrar.Common.Text.{eq}
use xrpl_registrar.Api.Reporting.{
  ReportDb, ResolvedIssuance, handle_balance_at, handle_transactions, balance_of, balance_answer,
  resolve_issuance, resolve_ledger, resolve_range, in_issuance_scope,
}
use xrpl_registrar.Api.Reporting.Agreement.{balance_at-transactions, stated_balance, listed_deltas}
use xrpl_registrar.Api.Responses.{ApiRequest}
use xrpl_registrar.Db.Issuances.{iou}
use xrpl_registrar.Json.{Value, Fields, number, string, field, end, get, as_string}
use xrpl_registrar.Api.Scope.{greatest_of}
use xrpl_registrar.Common.Sort.{find}
use xrpl_registrar.Reconcile.BalanceDeltas.{StoredDelta}
use xrpl_registrar.Tests.Reading.{stored}
use xrpl_registrar.Tests.Tally.{tally, marks, tally-marks}

abbrev pub unary : ℕ → String
unary n = String.◌∷◌ (Prim.Native.String.char_at "0" 0) (tally n)

abbrev pub value : String → ℕ
value s = marks s - 1

abbrev total : List String → ℕ
total = foldr (λ s n. value s + n) 0

abbrev pub sum : List String → String
sum xs = unary (total xs)

abbrev plus : String → String → String
plus a b = unary (value a + value b)

balance_of-sum : (xs : List String) → balance_of sum xs ≡ sum xs
unfolding balance_of
balance_of-sum [] = refl
balance_of-sum (x ∷ xs) = refl

total-append : (xs ys : List String) → total (xs ++ ys) ≡ total xs + total ys
total-append [] ys = omega arith
total-append (x ∷ xs) ys = omega (arith, total-append xs ys)

value-unary : (n : ℕ) → value (unary n) ≡ n
value-unary n = omega (arith, tally-marks n)

sum_order : (xs ys : List String) → Perm xs ys → balance_of sum xs ≡ balance_of sum ys
sum_order xs ys p =
    rw (balance_of-sum xs, balance_of-sum ys)
      (ap unary (Perm.foldr-eq ℕ_set (λ s n. value s + n) (λ a b x. omega arith) p 0))

sum_split :
    (xs ys : List String) → balance_of sum (xs ++ ys) ≡ plus (balance_of sum xs) (balance_of sum ys)
sum_split xs ys =
    rw (balance_of-sum (xs ++ ys), balance_of-sum xs, balance_of-sum ys)
      (ap unary
        (total-append xs ys ∙ omega (arith, value-unary (total xs), value-unary (total ys))))

abbrev delta : String → String → String → StoredDelta
delta hash address amount = record {
  issuance_id = 1;
  row = record { hash = hash; address = address; delta = amount };
}

abbrev token : ResolvedIssuance
token = record {
  id = 1;
  kind = iou;
  mpt_issuance_id = none;
  currency = some "USD";
  issuer = some "rIssuer";
}

-- Alice receives one unit in ledger 5 and two and three in ledger 7.
abbrev pub db : ReportDb
db = record {
  read = record {
    archive = record {
      transactions = stored "C" 7 ∷ stored "A" 5 ∷ stored "D" 6 ∷ stored "B" 7 ∷ [];
      accounts = [];
      account_transactions = [];
    };
    coverage = [];
    issuances = record {
      rows =
          record {
            id = 1;
            kind = iou;
            mpt_issuance_id = none;
            currency = some "USD";
            issuer_account = some "rIssuer";
            ticker = none;
            backfill_from_ledger = 0;
            enabled = true;
            created_at = "now";
          }
          ∷ [];
      next_id = 2;
    };
    ledgers = [];
  };
  account_issuance =
      record {
        address = "rAlice";
        issuance_id = 1;
        discovered_via = xrpl_registrar.Discovery.Earliest.issuer_sweep;
        first_acquisition_ledger = some 5;
      }
      ∷ [];
  balance_deltas =
      delta "C" "rAlice" "0iii"
      ∷ delta "A" "rAlice" "0i"
      ∷ delta "D" "rBob" "0iiii"
      ∷ delta "B" "rAlice" "0ii"
      ∷ [];
}

abbrev asked : Fields → ApiRequest
asked fields = record {
  command = "archive_balance_at";
  api_version = some (pos 2);
  fields = field "issuance_id" (number (pos 1)) (field "account" (string "rAlice") fields);
}

abbrev as_of : Value → ApiRequest
as_of ledger = asked (field "ledger_index" ledger end)

abbrev after_5 : ApiRequest
after_5 = asked (field "from_ledger" (number (pos 6)) (field "to_ledger" (string "latest") end))

abbrev no_time : String → Option ℕ
no_time iso = none

balance_at-transactions_example :
    stated_balance (handle_balance_at no_time sum db (as_of (string "validated"))).result
    ≡ some (
        plus
          (or_else
            (stated_balance (handle_balance_at no_time sum db (as_of (number (pos 5)))).result)
            "")
          (balance_of sum (listed_deltas (handle_transactions no_time db after_5).result)))
unfolding resolve_issuance resolve_ledger resolve_range in_issuance_scope eq get find as_string
    greatest_of
balance_at-transactions_example =
    balance_at-transactions sum plus sum_order sum_split no_time db token "rAlice"
      (as_of (number (pos 5))) (as_of (string "validated")) after_5 5 7 (omega arith) refl refl refl
      refl refl refl refl refl

closing_balance :
    stated_balance (handle_balance_at no_time sum db (as_of (string "validated"))).result
    ≡ some "0iiiiii"
unfolding handle_balance_at balance_answer get resolve_issuance eq find as_string resolve_ledger
    greatest_of in_issuance_scope
closing_balance = refl
