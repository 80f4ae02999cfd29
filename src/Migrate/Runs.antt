-- ===== src/Migrate/Runs.antt =====
-- What a run of db/migrate.py commits.
use paper_trading_agent.Base.{
  ◌<◌, ◌≡◌, length, refl, ap, sym, ◌∙◌, subst, inl, inr, false, Option, Option-cases, none, some,
  List, [], ◌∷◌, ◌++◌, Text, same_text, Bool-cases, Result, ok, err, arith,
}
use mathlib.Core.List.{append_assoc, append-nil}
use paper_trading_agent.Numbers.Sorting.{sorted, length-sorted, count_if-sorted}
use paper_trading_agent.Migrate.{
  Migration, Database, End, finished, failed, by_name, is_in, rows_in, ensure_migrations_table,
  insert_filename, apply_file, apply_files, committed, migrate_listed, migrate,
}
use paper_trading_agent.Migrate.Pending.{
  NamedOnce, names_of, pending, Fresh, is_in-append, Fresh-rest, NamedOnce-rest, Fresh-append,
  none_yet,
}

module _ {Schema : Type 0} (execute : Text → Schema → Option Schema) where
  -- The files' texts one after the other.
  unfoldable pub execute_all : List Migration → Schema → Option Schema
  execute_all [] schema = some schema
  execute_all (f ∷ files) schema = elim (execute f.sql schema) [
    | none ↦ none
    | some schema' ↦ execute_all files schema'
  ]

  abbrev pub with_rows : Schema → List Text → Database Schema
  with_rows schema names = record { schema = schema; migrations = some names }

  -- What is left to do, against its outcome.
  abbrev Leads : List Text → List Migration → Option Schema → Result Text (Database Schema) → Type 0
  Leads rows files none end = (name : Text) × (end ≡ err name)
  Leads rows files (some schema) end = end ≡ ok (with_rows schema (rows ++ names_of files))

  apply_file-runs :
      (f : Migration) (schema schema' : Schema) (rows : List Text)
      → execute f.sql schema ≡ some schema'
      → is_in f.name rows ≡ false
      → apply_file execute f (with_rows schema rows)
        ≡ some (with_rows schema' (rows ++ f.name ∷ []))
  unfolding apply_file insert_filename
  apply_file-runs f schema schema' rows e h = ground arith

  apply_file-raises :
      (f : Migration) (schema : Schema) (rows : List Text)
      → execute f.sql schema ≡ none
      → apply_file execute f (with_rows schema rows) ≡ none
  unfolding apply_file
  apply_file-raises f schema rows e = ground arith

  Leads-after :
      (rows : List Text) (f : Migration) (files : List Migration) (outcome : Option Schema)
      (end : Result Text (Database Schema))
      → Leads (rows ++ f.name ∷ []) files outcome end
      → Leads rows (f ∷ files) outcome end
  Leads-after rows f files none end h = h
  Leads-after rows f files (some schema) end h =
      h
      ∙ ap (λ names. ok (with_rows schema names)) (append_assoc rows (f.name ∷ []) (names_of files))

  -- `applied` was read at the start, `more` was written by this run.
  apply_files-Leads :
      (applied more : List Text) (files : List Migration) (schema : Schema)
      → NamedOnce files
      → Fresh more files
      → Leads
          (applied ++ more)
          (pending applied files)
          (execute_all (pending applied files) schema)
          (apply_files execute applied files (with_rows schema (applied ++ more)))
  unfolding apply_files execute_all
  apply_files-Leads applied more [] schema once fresh =
      ap (λ names. ok (with_rows schema names)) (sym (append-nil (applied ++ more)))
  apply_files-Leads applied more (f ∷ files) schema once (new, fresh) =
      elim (Bool-cases (is_in f.name applied)) [
        | inl e ↦
            rw e (apply_files-Leads applied more files schema (NamedOnce-rest f files once) fresh)
        | inr e ↦
            (let unseen : is_in f.name (applied ++ more) ≡ false =
                is_in-append f.name applied more ∙ ground arith in
              rw e (elim (Option-cases (execute f.sql schema)) [
                | inl raises ↦
                    rw raises
                      (rw (apply_file-raises f schema (applied ++ more) raises) (f.name, refl))
                | inr (schema', runs) ↦ rw runs (
                    rw (apply_file-runs f schema schema' (applied ++ more) runs unseen) (
                      Leads-after (applied ++ more) f (pending applied files)
                        (execute_all (pending applied files) schema') _
                        (subst
                          (λ rows.
                            Leads rows (pending applied files)
                              (execute_all (pending applied files) schema')
                              (apply_files execute applied files (with_rows schema' rows)))
                          (sym (append_assoc applied more (f.name ∷ [])))
                          (apply_files-Leads applied (more ++ f.name ∷ []) files schema'
                            (NamedOnce-rest f files once)
                            (Fresh-append more (f.name ∷ []) files fresh
                              (Fresh-rest f files once))))))
              ]))
      ]

  -- What a run does with files of different names: it commits the texts of the files not yet applied,
  -- in the order of their names, and records each of them, or, where one of them raises, no change
  -- but the empty table.
  abbrev pub Outcome :
      Database Schema → List Migration → Option Schema → Database Schema × End → Type 0
  Outcome db files none end = (name : Text) × (end ≡ (ensure_migrations_table db, failed name))
  Outcome db files (some schema) end =
      end ≡ (with_rows schema (rows_in db.migrations ++ names_of files), finished)

  Outcome-committed :
      (db : Database Schema) (files : List Migration) (outcome : Option Schema)
      (end : Result Text (Database Schema))
      → Leads (rows_in db.migrations) files outcome end
      → Outcome db files outcome (committed execute (ensure_migrations_table db) end)
  Outcome-committed db files none end (name, h) =
      (name, ap (committed execute (ensure_migrations_table db)) h)
  Outcome-committed db files (some schema) end h =
      ap (committed execute (ensure_migrations_table db)) h

  Outcome-migrate_listed :
      (db : Database Schema) (files : List Migration)
      → 0 < length files
      → NamedOnce files
      → Outcome db
          (pending (rows_in db.migrations) files)
          (execute_all (pending (rows_in db.migrations) files) db.schema)
          (migrate_listed execute files db)
  unfolding ensure_migrations_table
  Outcome-migrate_listed db [] some_file once = absurd (omega arith)
  Outcome-migrate_listed db (f ∷ files) some_file once =
      let rows = rows_in db.migrations in
      let left = pending rows (f ∷ files) in
      Outcome-committed db left (execute_all left db.schema) _ (
        subst
          (λ names.
            Leads names left (execute_all left db.schema)
              (apply_files execute rows (f ∷ files) (with_rows db.schema names)))
          (append-nil rows)
          (apply_files-Leads rows [] (f ∷ files) db.schema once (none_yet (f ∷ files))))

  -- Where there are files, and their names differ, a run executes the texts of those whose names are not
  -- recorded, in the order of their names, and records these names; where one of the texts raises, the
  -- run fails and leaves no change but that schema_migrations exists.
  pub migrate_lem :
      (files : List Migration) (db : Database Schema)
      → 0 < length files
      → NamedOnce files
      → let left = pending (rows_in db.migrations) (sorted by_name files) in
        Outcome db left (execute_all left db.schema) (migrate execute files db)
  unfolding migrate
  migrate_lem files db some_file once =
      Outcome-migrate_listed db (sorted by_name files) (omega (arith, length-sorted by_name files))
        (λ name. omega (
          arith,
          once name,
          count_if-sorted by_name (λ (f : Migration). same_text name f.name) files,
        ))
