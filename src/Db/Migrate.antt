-- ===== src/Db/Migrate.antt =====
-- src/db/migrate.ts: pending migrations, each in its own transaction. What a migration's SQL does to
-- the schema is a parameter, which throws where it is `none`. The lock under which the engine runs
-- it makes two simultaneous starts a sequence.
pub mod Resume
use xrpl_registrar.Common.{
  ℕ, String, Bool, false, not, ◌||◌, Option, none, some, List, [], ◌∷◌, ◌++◌, ltb, ◌==◌,
  if◌then◌else◌, or_else, length, take, keep_if,
}
use xrpl_registrar.Common.Sort.{sort}

pub record Migration : Type 0 where
  pub id : ℕ
  pub name : String
  pub sql : String

-- The schema, and the rows of `schema_migrations`: `none` where there is no such table yet.
pub record SchemaDb (S : Type 0) : Type 0 where
  pub schema : S
  pub schema_migrations : Option (List (ℕ × String))

-- Where a run ends: with the count of what it applied, or by an exception (`none`).
pub record MigrationRun (S : Type 0) : Type 0 where
  pub db : SchemaDb S
  pub result : Option ℕ

abbrev pub is_applied : ℕ → List (ℕ × String) → Bool
is_applied id [] = false
is_applied id (row ∷ rows) = row.0 == id || is_applied id rows

module _ {S : Type 0} where
  abbrev pub rows : SchemaDb S → List (ℕ × String)
  rows db = or_else db.schema_migrations []

  -- `CREATE TABLE IF NOT EXISTS schema_migrations`
  unfoldable pub bootstrap : SchemaDb S → SchemaDb S
  bootstrap db = record db { schema_migrations = some (rows db) }

  abbrev pub fresh : SchemaDb S → Migration → Bool
  fresh db m = not (is_applied m.id (rows db))

abbrev pub id_less : Migration → Migration → Bool
id_less a b = ltb a.id b.id

-- `[...migrations].sort((a, b) => a.id - b.id).filter((m) => !applied.has(m.id))`
unfoldable pub pending : {S : Type 0} → List Migration → SchemaDb S → List Migration
pending migrations db = keep_if (fresh db) (sort id_less migrations)

module _ {S : Type 0} (exec : String → S → Option S) where
  -- The transaction of one migration; a second row of one id is refused by the primary key.
  unfoldable pub apply_one : Migration → SchemaDb S → Option (SchemaDb S)
  apply_one m db = elim (exec m.sql db.schema) [
    | none ↦ none
    | some schema ↦
        if fresh db m
        then some
            (record { schema = schema; schema_migrations = some (rows db ++ (m.id, m.name) ∷ []) })
        else none
  ]

  -- The loop; `n` is what a run that does not fail answers.
  unfoldable pub apply_each : ℕ → List Migration → SchemaDb S → MigrationRun S
  apply_each n [] db = record { db = db; result = some n }
  apply_each n (m ∷ ms) db = elim (apply_one m db) [
    | none ↦ record { db = db; result = none }
    | some db' ↦ apply_each n ms db'
  ]

  unfoldable pub apply_migrations : List Migration → SchemaDb S → MigrationRun S
  apply_migrations migrations db =
      let ready = bootstrap db in
      let todo = pending migrations ready in apply_each (length todo) todo ready

  -- The database after a crash behind the first `k` of the pending migrations.
  unfoldable pub crashed_after : ℕ → List Migration → SchemaDb S → SchemaDb S
  crashed_after k migrations db =
      let ready = bootstrap db in (apply_each k (take k (pending migrations ready)) ready).db
