-- ===== src/Migrator/Examples.antt =====
-- Runs of cmd/migrator/main.go over three files, one of which is no migration; a script's effect is
-- its own text, written down.
use nimbus_app.Prelude.{
  ◌≡◌, ◌≢◌, refl, String, false, List, [], ◌∷◌, ◌++◌, arith, str_eq, if◌then◌else◌,
}
use nimbus_app.Prelude.Fallible.{Fallible, value, failed}
use nimbus_app.Db.Sorter.{insertion_sort, insert}
use nimbus_app.Db.Statement.{done, refused, lost, any}
use nimbus_app.Migrator.{
  DirEntry, Disk, State, Meets, Counts, apply_files, apply_migrations, migrate,
}
use nimbus_app.Migrator.Step.{all_done}
use nimbus_app.Migrator.Resume.{broken_run_resumes}

abbrev file : String → DirEntry
file name = record { name = name; is_dir = false }

abbrev disk : Disk (List String)
disk = record {
  read_dir = λ d. value (file "1.up.sql" ∷ file "1.down.sql" ∷ file "2.up.sql" ∷ []);
  read_file = λ f. value f;
  execute = λ script tables. tables ++ script ∷ [];
  join = λ d f. f;
}

abbrev empty : State (List String)
empty = record { tables = []; applied = [] }

-- The script of the second file is refused.
abbrev second_refused : String → Meets
second_refused name = record {
  check = done;
  exec = if str_eq name "2.up.sql" then refused else done;
  mark = done;
  cause = "syntax error";
}

script_answered : (name : String) → (second_refused name).exec ≢ lost
script_answered name e = ground arith

abbrev first_run : Fallible Counts × State (List String)
first_run = migrate disk "postgres://" "" done "" second_refused empty

breaks_off : first_run ≡ (
  failed "apply migrations: execute 2.up.sql: syntax error",
  record { tables = "1.up.sql" ∷ []; applied = "1.up.sql" ∷ [] },
)
unfolding migrate apply_migrations apply_files insertion_sort insert any
breaks_off = refl

broken_run_resumes_example :
    (migrate disk "postgres://" "" done "" all_done first_run.1).1
    ≡ (migrate disk "postgres://" "" done "" all_done empty).1
broken_run_resumes_example =
    broken_run_resumes disk "postgres://" "" done "" second_refused empty
      (λ name. (script_answered name, λ e. ground arith))

-- A mark that is refused lets its script run again.
abbrev mark_refused : String → Meets
mark_refused name = record {
  check = done;
  exec = done;
  mark = if str_eq name "1.up.sql" then refused else done;
  cause = "";
}

runs_a_script_twice :
    (migrate disk "postgres://" "" done "" all_done
      (migrate disk "postgres://" "" done "" mark_refused empty).1).1.tables
    ≡ "1.up.sql" ∷ "1.up.sql" ∷ "2.up.sql" ∷ []
unfolding migrate apply_migrations apply_files insertion_sort insert any
runs_a_script_twice = refl
