-- ===== src/Tests/Again.antt =====
-- Work that is done twice, at concrete inputs: derivations and migrations.
use xrpl_registrar.Common.{
  ℕ, String, ◌≡◌, refl, Option, none, some, List, [], ◌∷◌, ◌++◌, if◌then◌else◌,
}
use xrpl_registrar.Common.Text.{eq, lt}
use xrpl_registrar.Common.Dict.{lookup, insert}
use xrpl_registrar.Common.Set.{add, add_each}
use xrpl_registrar.Common.Sort.{sort, insert_sorted}
use xrpl_registrar.Db.Chunks.{chunks}
use xrpl_registrar.Db.Migrate.{
  Migration, SchemaDb, bootstrap, pending, apply_one, apply_each, apply_migrations, crashed_after,
}
use xrpl_registrar.Db.Migrate.Resume.{crashed_after-apply_migrations}
use xrpl_registrar.Db.Transactions.{Archive}
use xrpl_registrar.Discovery.Earliest.{Membership}
use xrpl_registrar.Json.{Value, Record, object, end, as_record}
use xrpl_registrar.Reconcile.BalanceDeltas.{
  DeltaTables, insert_deltas_many, ensure_accounts, ensure_account, upsert_chunks, upsert_delta,
  row_less,
}
use xrpl_registrar.Reconcile.Deriver.{derive, all_rows, in_scope_meta}
use xrpl_registrar.Reconcile.Deriver.Repeated.{derive_again}
use xrpl_registrar.Tests.Reading.{stored}

-- A schema is the list of the statements that made it; a statement "broken" fails.
abbrev exec : String → List String → Option (List String)
exec sql schema = if eq sql "broken" then none else some (schema ++ sql ∷ [])

abbrev migration : ℕ → String → Migration
migration id sql = record { id = id; name = sql; sql = sql }

abbrev migrations : List Migration
migrations = migration 2 "ledgers" ∷ migration 1 "initial" ∷ migration 3 "tickers" ∷ []

abbrev empty_db : SchemaDb (List String)
empty_db = record { schema = []; schema_migrations = none }

crashed_after-apply_migrations_example :
    (apply_migrations exec migrations (crashed_after exec 1 migrations empty_db)).db
    ≡ (apply_migrations exec migrations empty_db).db
crashed_after-apply_migrations_example =
    crashed_after-apply_migrations exec 1 migrations empty_db
      ((refl, (refl, tt)), ((refl, tt), (tt, tt)))

in_order :
    (apply_migrations exec migrations (crashed_after exec 1 migrations empty_db)).db.schema
    ≡ "initial" ∷ "ledgers" ∷ "tickers" ∷ []
unfolding apply_migrations crashed_after apply_each pending sort insert_sorted bootstrap apply_one
    eq
in_order = refl

abbrev archive : Archive
archive = record {
  transactions = stored "A" 5 ∷ stored "B" 7 ∷ [];
  accounts = [];
  account_transactions = ("A", "rAlice") ∷ ("B", "rBob") ∷ [];
}

abbrev members : List Membership
members =
    record {
      address = "rAlice";
      issuance_id = 1;
      discovered_via = xrpl_registrar.Discovery.Earliest.issuer_sweep;
      first_acquisition_ledger = some 5;
    }
    ∷ []

abbrev decode : String → Option Value
decode hex = some (object end)

abbrev five_to_alice : Record → Option (List (String × String))
five_to_alice meta = some (("rCarol", "-5") ∷ ("rAlice", "5") ∷ [])

abbrev untouched : DeltaTables
untouched = record { accounts = []; balance_deltas = [] }

abbrev derived : DeltaTables
derived = record {
  accounts = ("rAlice", none) ∷ ("rCarol", none) ∷ [];
  balance_deltas =
      record { issuance_id = 1; row = record { hash = "A"; address = "rAlice"; delta = "5" } }
      ∷ record { issuance_id = 1; row = record { hash = "A"; address = "rCarol"; delta = "-5" } }
      ∷ [];
}

derive_again_example : derive decode five_to_alice archive members 1 derived ≡ some (derived, 2)
unfolding derive all_rows in_scope_meta eq as_record insert_deltas_many ensure_accounts
    upsert_chunks chunks sort add_each insert_sorted add row_less ensure_account lt lookup
    upsert_delta insert
derive_again_example = derive_again decode five_to_alice archive members 1 untouched derived 2 refl
