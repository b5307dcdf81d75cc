-- ===== src/Migrator/Resume.antt =====
-- What two runs of cmd/migrator/main.go leave, the first of which may break off.
use nimbus_app.Prelude.{
  ◌≡◌, refl, sym, ap, ◌∙◌, String, true, false, List, [], ◌∷◌, str_eq, if◌then◌else◌, Bool-cases,
  inl, inr,
}
use nimbus_app.Prelude.Fallible.{Fallible, value, failed}
use nimbus_app.Db.Statement.{Outcome, done, refused, lost, any}
use nimbus_app.Migrator.Step.{
  all_done, IsClean, whole, whole_apart, checking_resumes, checking_keeps,
}
use nimbus_app.Db.Sorter.{insertion_sort}
use nimbus_app.Migrator.{
  name_order, DirEntry, is_migration, Disk, State, Meets, Counts, is_applied, Run, checking,
  apply_files, in_dir, apply_migrations, ensured, explained, migrate,
}

module _ {Tables : Type 0} (D : Disk Tables) where
  module _ (meets : String → Meets) (dir : String) (e : DirEntry) (es : List DirEntry) where
    apply_migration :
        (c : Counts) (s : State Tables)
        → is_migration e ≡ true
        → apply_files D meets dir (e ∷ es) c s
          ≡ checking D
              (meets e.name)
              dir
              e.name
              (apply_files D meets dir es)
              (meets e.name).check
              c
              s
    unfolding apply_files
    apply_migration c s h = rw h refl

    apply_other :
        (c : Counts) (s : State Tables)
        → is_migration e ≡ false
        → apply_files D meets dir (e ∷ es) c s ≡ apply_files D meets dir es c s
    unfolding apply_files
    apply_other c s h = rw h refl

  apply_none :
      (meets : String → Meets) (dir : String) (c : Counts) (s : State Tables)
      → apply_files D meets dir [] c s ≡ (value c, s)
  unfolding apply_files
  apply_none meets dir c s = refl

  full_apart :
      (dir : String) (es : List DirEntry) (c d : Counts) (s : State Tables)
      → (apply_files D all_done dir es c s).1 ≡ (apply_files D all_done dir es d s).1
  unfolding any whole
  full_apart dir [] c d s = rw (apply_none all_done dir c s, apply_none all_done dir d s) refl
  full_apart dir (e ∷ es) c d s = elim (Bool-cases (is_migration e)) [
    | inl h ↦
        rw (apply_migration all_done dir e es c s h, apply_migration all_done dir e es d s h)
          (whole_apart D dir e.name (apply_files D all_done dir es) (full_apart dir es) c d s)
    | inr h ↦
        rw (apply_other all_done dir e es c s h, apply_other all_done dir e es d s h)
          (full_apart dir es c d s)
  ]

  part_keeps :
      (meets : String → Meets) (dir : String) (es : List DirEntry) (n : String) (c : Counts)
      (s : State Tables)
      → is_applied D n s ≡ true
      → is_applied D n (apply_files D meets dir es c s).1 ≡ true
  part_keeps meets dir [] n c s h = rw (apply_none meets dir c s) h
  part_keeps meets dir (e ∷ es) n c s h = elim (Bool-cases (is_migration e)) [
    | inl k ↦ rw (apply_migration meets dir e es c s k) (
        checking_keeps D (meets e.name) dir e.name (apply_files D meets dir es) n
          (part_keeps meets dir es n) (meets e.name).check c s h)
    | inr k ↦ rw (apply_other meets dir e es c s k) (part_keeps meets dir es n c s h)
  ]

  files_resume :
      (meets : String → Meets) (dir : String) (es : List DirEntry) (b c d : Counts)
      (s : State Tables)
      → IsClean meets
      → (apply_files D all_done dir es c (apply_files D meets dir es b s).1).1
        ≡ (apply_files D all_done dir es d s).1
  unfolding whole
  files_resume meets dir [] b c d s clean =
      rw (apply_none meets dir b s, apply_none all_done dir c s, apply_none all_done dir d s) refl
  files_resume meets dir (e ∷ es) b c d s clean = elim (Bool-cases (is_migration e)) [
    | inl h ↦
        ap (λ (r : Run D). (apply_files D all_done dir (e ∷ es) c r.1).1)
          (apply_migration meets dir e es b s h)
        ∙ ap (λ (r : Run D). r.1) (apply_migration all_done dir e es c _ h)
        ∙ checking_resumes D (meets e.name) dir e.name (apply_files D meets dir es)
            (apply_files D all_done dir es) (clean e.name) (full_apart dir es)
            (part_keeps meets dir es e.name) (λ b c d s. files_resume meets dir es b c d s clean)
            (meets e.name).check b c d s
        ∙ sym (ap (λ (r : Run D). r.1) (apply_migration all_done dir e es d s h))
    | inr h ↦
        ap (λ (r : Run D). (apply_files D all_done dir (e ∷ es) c r.1).1)
          (apply_other meets dir e es b s h)
        ∙ ap (λ (r : Run D). r.1) (apply_other all_done dir e es c _ h)
        ∙ files_resume meets dir es b c d s clean
        ∙ sym (ap (λ (r : Run D). r.1) (apply_other all_done dir e es d s h))
  ]

  explained_state : (r : Run D) → (explained D r).1 ≡ r.1
  explained_state (failed e, s) = refl
  explained_state (value c, s) = refl

  dir_resumes :
      (meets : String → Meets) (dir : String) (es : Fallible (List DirEntry)) (s : State Tables)
      → IsClean meets
      → (in_dir D all_done dir es (in_dir D meets dir es s).1).1 ≡ (in_dir D all_done dir es s).1
  dir_resumes meets dir (failed e) s clean = refl
  dir_resumes meets dir (value es) s clean =
      files_resume meets dir (insertion_sort name_order es) _ _ _ s clean

  -- What `main` does with its directory.
  migrations_resume :
      (meets : String → Meets) (dir : String) (s : State Tables)
      → IsClean meets
      → (explained D
          (apply_migrations D all_done dir (explained D (apply_migrations D meets dir s)).1)).1
        ≡ (explained D (apply_migrations D all_done dir s)).1
  unfolding apply_migrations
  migrations_resume meets dir s clean =
      explained_state _
      ∙ ap (λ x. (in_dir D all_done dir (D.read_dir dir) x).1)
          (explained_state (in_dir D meets dir (D.read_dir dir) s))
      ∙ dir_resumes meets dir (D.read_dir dir) s clean
      ∙ sym (explained_state _)

  -- A run that may break off, at a statement that is refused or at a check or a mark whose answer is
  -- lost, but in which no script's answer is lost and no mark is refused; and after it a run that
  -- goes through: the two leave the same tables and the same list of names as the second run alone.
  pub broken_run_resumes :
      (database_url migrations_dir : String) (ensure : Outcome) (cause : String)
      (meets : String → Meets) (s : State Tables)
      → IsClean meets
      → let first = migrate D database_url migrations_dir ensure cause meets s in
        let again = migrate D database_url migrations_dir done "" all_done in
        (again first.1).1 ≡ (again s).1
  unfolding migrate
  broken_run_resumes url dir ensure cause meets s clean = elim (Bool-cases (str_eq url "")) [
    | inl h ↦ rw h refl
    | inr h ↦ rw h (by_outcome ensure)
  ]
    where
      place : String
      place = if str_eq dir "" then "/migrations" else dir

      by_outcome :
          (out : Outcome)
          → (explained D (
              apply_migrations D all_done place
                (ensured D out cause (λ s. explained D (apply_migrations D meets place s)) s).1)).1
            ≡ (explained D (apply_migrations D all_done place s)).1
      by_outcome done = migrations_resume meets place s clean
      by_outcome refused = refl
      by_outcome lost = refl
