-- ===== src/Migrate.antt =====
-- db/migrate.py: which files of db/migrations have run, and a run of the others.
-- `execute` is what PostgreSQL does with the text of a file: the schema after it, or `none` where it
-- raises. The texts are taken to leave schema_migrations alone and to hold no COMMIT or ROLLBACK.
-- A connection that does not commit on its own opens a transaction with its first statement, which
-- is the SELECT of already_applied: a `conn.transaction()` behind it is a savepoint inside of that
-- one transaction, which the end of main commits and an exception undoes.
pub mod Pending
pub mod Runs
pub mod Upgrade
mod Tests
use paper_trading_agent.Base.{
  Bool, true, false, not, ◌&&◌, ◌||◌, Option, none, some, List, [], ◌∷◌, ◌++◌, map, select, Text,
  same_text, if◌then◌else◌, Result, ok, err, ◌>>=◌, or_raise,
}
use paper_trading_agent.Numbers.Sorting.{sorted}
use paper_trading_agent.Explainer.{text_le}

-- A file of MIGRATIONS_DIR.
pub record Migration : Type 0 where
  pub name : Text
  pub sql : Text

-- `migrations` has the filenames of schema_migrations, if there is that table.
pub record Database (Schema : Type 0) : Type 0 where
  pub schema : Schema
  pub migrations : Option (List Text)

-- How main ends: no file, "done.", or the exception of a file.
pub data End : Type 0 where
  no_files finished : End
  failed : Text → End

abbrev pub by_name : Migration → Migration → Bool
by_name a b = text_le a.name b.name

abbrev pub is_in : Text → List Text → Bool
is_in name [] = false
is_in name (other ∷ names) = same_text other name || is_in name names

abbrev pub rows_in : Option (List Text) → List Text
rows_in none = []
rows_in (some names) = names

module _ {Schema : Type 0} where
  unfoldable pub ensure_migrations_table : Database Schema → Database Schema
  ensure_migrations_table db = record db { migrations = some (rows_in db.migrations) }

  -- The set that is read once, before the loop.
  abbrev pub already_applied : Database Schema → List Text
  already_applied db = rows_in db.migrations

  -- The INSERT: filename is the primary key of an existing table.
  unfoldable pub insert_filename : Text → Database Schema → Option (Database Schema)
  insert_filename name db = elim db.migrations [
    | none ↦ none
    | some names ↦
        if is_in name names
        then none
        else some (record db { migrations = some (names ++ name ∷ []) })
  ]

  module _ (execute : Text → Schema → Option Schema) where
    -- The block of one file.
    unfoldable pub apply_file : Migration → Database Schema → Option (Database Schema)
    apply_file file db = elim (execute file.sql db.schema) [
      | none ↦ none
      | some schema ↦ insert_filename file.name (record db { schema = schema })
    ]

    unfoldable pub apply_files :
        List Text → List Migration → Database Schema → Result Text (Database Schema)
    apply_files applied [] db = ok db
    apply_files applied (file ∷ files) db =
        if is_in file.name applied
        then apply_files applied files db
        else (or_raise (apply_file file db) file.name >>= λ db'. apply_files applied files db')

    -- What is committed at the end of the connection's block.
    abbrev pub committed : Database Schema → Result Text (Database Schema) → Database Schema × End
    committed ready (err name) = (ready, failed name)
    committed ready (ok db) = (db, finished)

    abbrev pub migrate_listed : List Migration → Database Schema → Database Schema × End
    migrate_listed [] db = (db, no_files)
    migrate_listed (file ∷ files) db =
        let ready = ensure_migrations_table db in
        committed ready (apply_files (already_applied ready) (file ∷ files) ready)

    -- main
    unfoldable pub migrate : List Migration → Database Schema → Database Schema × End
    migrate files db = migrate_listed (sorted by_name files) db
