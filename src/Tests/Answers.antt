-- ===== src/Tests/Answers.antt =====
-- src/api at concrete inputs.
use xrpl_registrar.Common.{ℕ, String, ◌≡◌, refl, Bool, true, Option, some, List, [], ◌∷◌}
use xrpl_registrar.Common.Text.{eq}
use xrpl_registrar.Common.Int.{ℤ, pos}
use xrpl_registrar.Json.{end, field, string, get, as_string}
use xrpl_registrar.Backfill.Worker.{CoverageRow}
use xrpl_registrar.Api.Responses.{ApiRequest, MethodResult}
use xrpl_registrar.Api.Handler.{Parts, ForwardResult, handle}
use xrpl_registrar.Api.Handler.Provenance.{
  IsMarked, may_forward, handle-IsMarked, handle-may_forward,
}
use xrpl_registrar.Admin.Status.{coverage_of_rows}
use xrpl_registrar.Admin.Status.Joins.{coverage_of_rows-conservative_coverage}
use xrpl_registrar.Api.Coverage.{conservative_coverage, joined, uncovered}

abbrev answers : ApiRequest → MethodResult
answers req = record { result = end; extra_warnings = [] }

abbrev forwards : ApiRequest → Option ForwardResult
forwards req = some (record { result = end; warnings = [] })

abbrev is_alice : String → Bool
is_alice account = eq account "rAlice"

abbrev prints : ℤ → String
prints n = "n"

abbrev server : Parts
server = record {
  in_scope = is_alice;
  forward = forwards;
  forward_unknown = true;
  handle_account_tx = answers;
  handle_tx = answers;
  handle_account_info = answers;
  handle_account_lines = answers;
  handle_mpt_holders = answers;
  handle_gateway_balances = answers;
  handle_balance_at = answers;
  handle_transactions = answers;
  print = prints;
}

-- A read of an account that is out of scope.
abbrev read_bob : ApiRequest
read_bob = record {
  command = "account_info";
  api_version = some (pos 2);
  fields = field "account" (string "rBob") end;
}

handle-IsMarked_example : IsMarked (handle server read_bob)
handle-IsMarked_example = handle-IsMarked server read_bob

bob_forwarded : (handle server read_bob).forwarded ≡ true
unfolding handle eq get as_string
bob_forwarded = refl

handle-may_forward_example : may_forward server read_bob ≡ true
handle-may_forward_example = handle-may_forward server read_bob bob_forwarded

abbrev covers : String → ℕ → ℕ → CoverageRow
covers account from_ledger to_ledger = record {
  address = account;
  from_ledger = from_ledger;
  to_ledger = to_ledger;
}

abbrev covered_rows : List CoverageRow
covered_rows = covers "rAlice" 5 90 ∷ covers "rBob" 8 70 ∷ []

abbrev usd : List (String × List String)
usd = ("USD", "rAlice" ∷ "rBob" ∷ []) ∷ []

abbrev tail_ledgers : List ℕ
tail_ledgers = 80 ∷ 81 ∷ []

all_have_rows : uncovered (joined ("rAlice" ∷ "rBob" ∷ []) covered_rows) ≡ 0
unfolding uncovered joined eq
all_have_rows = refl

coverage_of_rows-conservative_coverage_example :
    coverage_of_rows ("rAlice" ∷ "rBob" ∷ []) covered_rows tail_ledgers
    ≡ conservative_coverage ("rAlice" ∷ "rBob" ∷ []) covered_rows tail_ledgers
coverage_of_rows-conservative_coverage_example =
    coverage_of_rows-conservative_coverage ("rAlice" ∷ "rBob" ∷ []) covered_rows tail_ledgers
      all_have_rows
