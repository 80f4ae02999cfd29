-- ===== src/Migrate/Upgrade.antt =====
-- Runs of db/migrate.py one after the other.
use paper_trading_agent.Base.{
  ◌<◌, ◌≡◌, ◌≢◌, length, refl, ap, sym, ◌∙◌, subst, inl, inr, Option, Option-cases, none, some,
  List, [], ◌∷◌, ◌++◌, select-append, length-append, count_if-append, Text, same_text, arith,
}
use mathlib.Core.List.{append_assoc, map-append}
use paper_trading_agent.Numbers.Sorting.{IsSorted, sorted_of_IsSorted}
use paper_trading_agent.Migrate.{
  Migration, Database, End, finished, failed, by_name, rows_in, migrate,
}
use paper_trading_agent.Migrate.Pending.{
  NamedOnce, names_of, pending, none_pending, Fresh-pending, pending-more, IsSorted-front,
}
use paper_trading_agent.Migrate.Runs.{execute_all, with_rows, Outcome, migrate_lem}

failed_not_finished : (name : Text) → failed name ≢ finished
failed_not_finished name e = cc

module _ {Schema : Type 0} (execute : Text → Schema → Option Schema) where
  migrate_ordered :
      (files : List Migration) (db : Database Schema)
      → 0 < length files
      → IsSorted by_name files
      → NamedOnce files
      → let left = pending (rows_in db.migrations) files in
        Outcome execute db left (execute_all execute left db.schema) (migrate execute files db)
  migrate_ordered files db some_file order once =
      subst
        (λ fs.
          let left = pending (rows_in db.migrations) fs in
          Outcome execute db left (execute_all execute left db.schema) (migrate execute files db))
        (sorted_of_IsSorted by_name files order) (migrate_lem execute files db some_file once)

  execute_all-step :
      (f : Migration) (files : List Migration) (schema : Schema) {next : Schema}
      → execute f.sql schema ≡ some next
      → execute_all execute (f ∷ files) schema ≡ execute_all execute files next
  unfolding execute_all
  execute_all-step f files schema e = ground arith

  execute_all-append :
      (xs ys : List Migration) (schema : Schema) {last : Schema}
      → execute_all execute (xs ++ ys) schema ≡ some last
      → (middle : Schema) × (execute_all execute xs schema ≡ some middle)
        × (execute_all execute ys middle ≡ some last)
  unfolding execute_all
  execute_all-append [] ys schema e = (schema, refl, e)
  execute_all-append (f ∷ xs) ys schema e = elim (Option-cases (execute f.sql schema)) [
    | inl raises ↦ absurd (ground arith)
    | inr (next, runs) ↦
        (let (middle, e', e'') =
            execute_all-append xs ys next (sym (execute_all-step f (xs ++ ys) schema runs) ∙ e) in
          (middle, execute_all-step f xs schema runs ∙ e', e''))
  ]

  Outcome-some :
      (db : Database Schema) (files : List Migration) (outcome : Option Schema)
      (end : Database Schema × End) {schema : Schema}
      → Outcome execute db files outcome end
      → outcome ≡ some schema
      → end ≡ (with_rows execute schema (rows_in db.migrations ++ names_of files), finished)
  Outcome-some db files outcome end h e = subst (λ o. Outcome execute db files o end) e h

  finished_all :
      (db : Database Schema) (files : List Migration) (outcome : Option Schema)
      (end : Database Schema × End)
      → Outcome execute db files outcome end
      → end.1 ≡ finished
      → (schema : Schema) × (outcome ≡ some schema)
  finished_all db files none end (name, h) e =
      absurd (failed_not_finished name (ap (λ (x : Database Schema × End). x.1) (sym h) ∙ e))
  finished_all db files (some schema) end h e = (schema, refl)

  -- Files that come later in the order of names can be applied by a later run: from the state that a
  -- run of the older files left, a run of all files ends as from the start, where that one finishes. So
  -- a run after one that finished changes nothing.
  pub migrate_upgrade :
      (older newer : List Migration) (db : Database Schema)
      → 0 < length older
      → IsSorted by_name (older ++ newer)
      → NamedOnce (older ++ newer)
      → (migrate execute (older ++ newer) db).1 ≡ finished
      → migrate execute (older ++ newer) (migrate execute older db).0
        ≡ migrate execute (older ++ newer) db
  migrate_upgrade older newer db some_file order once ends =
      let rows = rows_in db.migrations in
      let files = older ++ newer in
      let done = pending rows older in
      let todo = pending rows newer in
      let some_files : 0 < length files = omega (arith, some_file, length-append older newer) in
      let split : pending rows files ≡ done ++ todo = select-append _ older newer in
      let whole : Outcome execute db (done ++ todo) (execute_all execute (done ++ todo) db.schema)
          (migrate execute files db) =
        subst
          (λ left.
            Outcome execute db left (execute_all execute left db.schema) (migrate execute files db))
          split (migrate_ordered files db some_files order once) in
      let (last, runs) = finished_all db (done ++ todo) _ _ whole ends in
      let (middle, first, second) = execute_all-append done todo db.schema runs in
      let once_older : NamedOnce older = λ name. omega (
        arith,
        once name,
        count_if-append (λ (f : Migration). same_text name f.name) older newer,
      ) in
      let after : migrate execute older db
          ≡ (with_rows execute middle (rows ++ names_of done), finished) =
        Outcome-some db done _ _
          (migrate_ordered older db some_file (IsSorted-front older newer order) once_older)
          first in
      let rest : pending (rows ++ names_of done) files ≡ todo =
        select-append _ older newer
        ∙ ap (λ fs. fs ++ pending (rows ++ names_of done) newer) (none_pending rows older)
        ∙ pending-more rows (names_of done) newer (Fresh-pending rows older newer once) in
      let again : migrate execute files (with_rows execute middle (rows ++ names_of done))
          ≡ (with_rows execute last ((rows ++ names_of done) ++ names_of todo), finished) =
        Outcome-some (with_rows execute middle (rows ++ names_of done)) todo _ _
          (subst
            (λ left.
              Outcome execute (with_rows execute middle (rows ++ names_of done)) left
                (execute_all execute left middle)
                (migrate execute files (with_rows execute middle (rows ++ names_of done))))
            rest
            (migrate_ordered files (with_rows execute middle (rows ++ names_of done)) some_files
              order once))
          second in
      ap (λ (end : Database Schema × End). migrate execute files end.0) after
      ∙ again
      ∙ ap (λ names. (with_rows execute last names, finished))
          (append_assoc rows (names_of done) (names_of todo)
            ∙ ap (λ names. rows ++ names) (sym (map-append (λ (f : Migration). f.name) done todo)))
      ∙ sym (Outcome-some db (done ++ todo) _ _ whole runs)
