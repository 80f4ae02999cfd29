-- ===== src/Migrate/Tests.antt =====
-- Runs of db/migrate.py over a schema that is the list of the texts executed, of which "bad" raises.
use paper_trading_agent.Base.{
  ◌≤◌, ◌≡◌, refl, subst, sym, inl, inr, Bool-cases, Option, none, some, List, [], ◌∷◌, ◌++◌, Text,
  codes, same_text, same_text_iff, if◌then◌else◌, count_if, arith,
}
use paper_trading_agent.Numbers.Sorting.{sorted}
use paper_trading_agent.Explainer.{text_le}
use paper_trading_agent.Migrate.{
  Migration, Database, finished, failed, by_name, ensure_migrations_table, insert_filename,
  apply_file, apply_files, migrate, rows_in,
}
use paper_trading_agent.Migrate.Pending.{NamedOnce, pending}
use paper_trading_agent.Migrate.Runs.{Outcome, execute_all, migrate_lem}
use paper_trading_agent.Migrate.Upgrade.{migrate_upgrade}

abbrev execute : Text → List Text → Option (List Text)
execute sql schema = if same_text sql (codes "bad") then none else some (schema ++ sql ∷ [])

abbrev init : Migration
init = record { name = codes "001_init.sql"; sql = codes "runs" }

abbrev view : Migration
view = record { name = codes "002_positions_view.sql"; sql = codes "positions" }

abbrev broken : Migration
broken = record { name = codes "002_positions_view.sql"; sql = codes "bad" }

abbrev empty : Database (List Text)
empty = record { schema = []; migrations = none }

-- The file that raises also undoes the one before it.
broken_run :
    migrate execute (broken ∷ init ∷ []) empty
    ≡ (record { schema = []; migrations = some [] }, failed (codes "002_positions_view.sql"))
unfolding migrate sorted text_le ensure_migrations_table apply_files apply_file insert_filename
    same_text
broken_run = refl

whole_run : (migrate execute (init ∷ view ∷ []) empty).1 ≡ finished
unfolding migrate sorted text_le ensure_migrations_table apply_files apply_file insert_filename
    same_text
whole_run = refl

init-view-NamedOnce : NamedOnce (init ∷ view ∷ [])
unfolding same_text
init-view-NamedOnce name = elim (Bool-cases (same_text name init.name)) [
  | inl e ↦
      subst (λ n. count_if (λ (f : Migration). same_text n f.name) (init ∷ view ∷ []) ≤ 1)
        (sym ((same_text_iff name init.name).0 e)) (omega arith)
  | inr e ↦ rw e (ground arith)
]

migrate_lem_example :
    let left = pending (rows_in empty.migrations) (sorted by_name (init ∷ view ∷ [])) in
    Outcome execute empty left
      (execute_all execute left empty.schema)
      (migrate execute (init ∷ view ∷ []) empty)
migrate_lem_example = migrate_lem execute (init ∷ view ∷ []) empty (omega arith) init-view-NamedOnce

migrate_upgrade_example :
    migrate execute (init ∷ view ∷ []) (migrate execute (init ∷ []) empty).0
    ≡ migrate execute (init ∷ view ∷ []) empty
unfolding text_le
migrate_upgrade_example =
    migrate_upgrade execute (init ∷ []) (view ∷ []) empty (omega arith) ((refl, tt), (tt, tt))
      init-view-NamedOnce whole_run
