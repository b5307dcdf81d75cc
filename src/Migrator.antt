-- ===== src/Migrator.antt =====
-- cmd/migrator/main.go: the command that applies the files of migrations/ to the database.
pub mod Step
pub mod Resume
mod Examples
use Prim.Native.String.{slice, len, ◌++◌}
use Prim.Native.Nat.{Ordering}
use Prim.Native.String
use nimbus_app.Prelude.{
  ℕ, ◌+◌, ◌-◌, String, Bool, true, false, not, ◌&&◌, List, [], ◌∷◌, ◌++◌ as ◌+++◌, map, keep, leb,
  str_eq, if◌then◌else◌,
}
use nimbus_app.Prelude.Fallible.{Fallible, value, failed}
use nimbus_app.Db.Sorter.{insertion_sort}
use nimbus_app.Db.Statement.{Outcome, done, refused, lost, any}

pub record DirEntry : Type 0 where
  pub name : String
  pub is_dir : Bool

-- `entries[i].Name() < entries[j].Name()`, as an order: names are bytes. A directory has no name
-- twice, so that every sort by it gives the same list.
abbrev pub name_order : DirEntry → DirEntry → Bool
name_order a b = elim (String.compare a.name b.name) [ Ordering.gt ↦ false | _ ↦ true ]

-- `strings.HasSuffix`
abbrev pub has_suffix : String → String → Bool
has_suffix s suffix =
    leb (len suffix) (len s) && str_eq (slice s (len s - len suffix) (len s)) suffix

abbrev pub is_migration : DirEntry → Bool
is_migration e = not e.is_dir && has_suffix e.name ".up.sql"

-- What a script makes of the tables is the database's; a file is read as `read_file` says.
pub record Disk (Tables : Type 0) : Type 0 where
  pub read_dir : String → Fallible (List DirEntry)
  pub read_file : String → Fallible String
  pub execute : String → Tables → Tables
  pub join : String → String → String

-- The tables, and the names in `schema_migrations`.
pub record State (Tables : Type 0) : Type 0 where
  pub tables : Tables
  pub applied : List String

-- What the three statements for one file meet.
pub record Meets : Type 0 where
  pub check : Outcome
  pub exec : Outcome
  pub mark : Outcome
  pub cause : String

pub record Counts : Type 0 where
  pub applied : ℕ
  pub skipped : ℕ

module _ {Tables : Type 0} (D : Disk Tables) where
  abbrev pub is_applied : String → State Tables → Bool
  is_applied name s = any (λ n. str_eq n name) s.applied

  abbrev pub executed : String → State Tables → State Tables
  executed contents s = record s { tables = D.execute contents s.tables }

  -- INSERT … ON CONFLICT DO NOTHING
  abbrev pub marked : String → State Tables → State Tables
  marked name s = if is_applied name s then s else record s { applied = s.applied +++ name ∷ [] }

  abbrev pub Run : Type 0
  Run = Fallible Counts × State Tables

  -- `next` goes on with the files behind this one.
  abbrev pub marking :
      Outcome → String → String → (Counts → State Tables → Run) → Counts → State Tables → Run
  marking done cause name next c s = next (record c { applied = c.applied + 1 }) (marked name s)
  marking refused cause name next c s = (failed ("mark applied " ++ name ++ ": " ++ cause), s)
  marking lost cause name next c s =
      (failed ("mark applied " ++ name ++ ": " ++ cause), marked name s)

  abbrev pub executing :
      Meets
      → String
      → String
      → (Counts → State Tables → Run)
      → Outcome
      → Counts
      → State Tables
      → Run
  executing m name contents next done c s = marking m.mark m.cause name next c (executed contents s)
  executing m name contents next refused c s = (failed ("execute " ++ name ++ ": " ++ m.cause), s)
  executing m name contents next lost c s =
      (failed ("execute " ++ name ++ ": " ++ m.cause), executed contents s)

  abbrev pub reading :
      Meets → String → (Counts → State Tables → Run) → Fallible String → Counts → State Tables → Run
  reading m name next (failed e) c s = (failed ("read " ++ name ++ ": " ++ e), s)
  reading m name next (value contents) c s = executing m name contents next m.exec c s

  abbrev pub checking :
      Meets
      → String
      → String
      → (Counts → State Tables → Run)
      → Outcome
      → Counts
      → State Tables
      → Run
  checking m dir name next done c s =
      if is_applied name s
      then next (record c { skipped = c.skipped + 1 }) s
      else reading m name next (D.read_file (D.join dir name)) c s
  checking m dir name next _ c s = (failed ("check applied " ++ name ++ ": " ++ m.cause), s)

  -- `meets` is asked by the name of the file.
  unfoldable pub apply_files :
      (String → Meets) → String → List DirEntry → Counts → State Tables → Run
  apply_files meets dir [] c s = (value c, s)
  apply_files meets dir (e ∷ es) c s =
      let next = apply_files meets dir es in
      if is_migration e
      then checking (meets e.name) dir e.name next (meets e.name).check c s
      else next c s

  abbrev pub in_dir : (String → Meets) → String → Fallible (List DirEntry) → State Tables → Run
  in_dir meets dir (failed e) s = (failed ("read migrations dir " ++ dir ++ ": " ++ e), s)
  in_dir meets dir (value es) s =
      apply_files meets dir (insertion_sort name_order es) (record { applied = 0; skipped = 0 }) s

  unfoldable pub apply_migrations : (String → Meets) → String → State Tables → Run
  apply_migrations meets dir s = in_dir meets dir (D.read_dir dir) s

  -- CREATE TABLE IF NOT EXISTS: a table that is new has no names.
  abbrev pub ensured : Outcome → String → (State Tables → Run) → State Tables → Run
  ensured done cause next s = next s
  ensured _ cause next s = (failed ("ensure schema_migrations: " ++ cause), s)

  abbrev pub explained : Run → Run
  explained (failed e, s) = (failed ("apply migrations: " ++ e), s)
  explained (value c, s) = (value c, s)

  -- `main` behind the connection to the database: the text of `log.Fatalf`, or the numbers that it
  -- prints.
  unfoldable pub migrate :
      String → String → Outcome → String → (String → Meets) → State Tables → Run
  migrate database_url migrations_dir ensure cause meets s =
      if str_eq database_url ""
      then (failed "DATABASE_URL is required", s)
      else ensured ensure cause
          (λ s. explained (
            apply_migrations meets
              (if str_eq migrations_dir "" then "/migrations" else migrations_dir) s))
          s
