-- ===== src/Tests/Owed.antt =====
-- gateway_balances at concrete inputs, with amounts in unary.
use xrpl_registrar.Common.{ℕ, ◌+◌, ◌-◌, String, ◌≡◌, refl, some, List, [], ◌∷◌, ◌++◌, arith, ◌==◌}
use xrpl_registrar.Common.Dict.{lookup, insert}
use xrpl_registrar.Common.Text.{eq}
use xrpl_registrar.Api.GatewayBalances.{Totals, add_row, add_holder, add_holders}
use xrpl_registrar.Api.GatewayBalances.Split.{hot_total, reported_all, held, add_holders-conserves}
use xrpl_registrar.Reconcile.Iou.{Decimals}
use xrpl_registrar.Tests.Statement.{unary, value}

-- Natural numbers in place of Big's decimals.
abbrev naturals : Decimals ℕ
naturals = record {
  parse = λ s. some (value s);
  zero = 0;
  plus = λ a b. a + b;
  minus = λ a b. a - b;
  negate = λ a. a;
  equal = λ a b. a == b;
  print = unary;
}

-- Alice holds two, Bob three, and the issuer one of its own.
abbrev rows : List (String × String)
rows = ("rAlice", "0ii") ∷ ("rIssuer", "0i") ∷ ("rBob", "0iii") ∷ []

abbrev nothing_yet : Totals naturals
nothing_yet = record { obligation = 0; balances = [] }

abbrev with_bob : Totals naturals
with_bob = record { obligation = 2; balances = ("rBob", ("USD", "0iii") ∷ []) ∷ [] }

abbrev without : Totals naturals
without = record { obligation = 5; balances = [] }

add_holders-conserves_example :
    (5 ≡ 2 + hot_total naturals "rIssuer" ("rBob" ∷ []) rows)
    × ((holder : String)
        → held naturals holder with_bob.balances
          ≡ held naturals holder []
            ++ reported_all naturals "rIssuer" ("rBob" ∷ []) "USD" holder rows)
unfolding add_holders add_row add_holder eq insert lookup
add_holders-conserves_example =
    add_holders-conserves naturals (λ a. omega arith) (λ a b. omega arith) (λ a b c. omega arith)
      (λ a h. ground (arith, h)) "rIssuer" ("rBob" ∷ []) "USD" rows [] with_bob without refl refl
