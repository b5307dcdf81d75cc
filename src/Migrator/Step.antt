-- ===== src/Migrator/Step.antt =====
-- One file in a run of cmd/migrator/main.go that may break off, and in one that goes through.
use nimbus_app.Prelude.{
  ◌≡◌, ◌≢◌, ◌⊎◌, ◌+◌, refl, sym, ap, ◌∙◌, String, Bool, true, false, str_eq, str_eq_refl,
  if◌then◌else◌, Bool-cases, inl, inr,
}
use nimbus_app.Prelude.Fallible.{Fallible, value, failed}
use nimbus_app.Db.Statement.{Outcome, done, refused, lost}
use nimbus_app.Db.Rows.{any-append}
use nimbus_app.Migrator.{
  Disk, State, Meets, Counts, is_applied, executed, marked, Run, marking, executing, reading,
  checking,
}

-- Every statement is carried out.
abbrev pub all_done : String → Meets
all_done name = record { check = done; exec = done; mark = done; cause = "" }

-- No script's answer is lost, and no mark is refused.
abbrev pub IsClean : (String → Meets) → Type 0
IsClean meets = (name : String) → ((meets name).exec ≢ lost) × ((meets name).mark ≢ refused)

module _ {Tables : Type 0} (D : Disk Tables) where
  marked_applied : (name : String) (s : State Tables) → is_applied D name (marked D name s) ≡ true
  marked_applied name s = elim (Bool-cases (is_applied D name s)) [
    | inl h ↦ rw (h, h) refl
    | inr h ↦ rw h (any-append (λ n. str_eq n name) s.applied name ∙ rw (h, str_eq_refl name) refl)
  ]

  still_marked :
      (n name : String) (s : State Tables)
      → is_applied D n s ≡ true
      → is_applied D n (marked D name s) ≡ true
  still_marked n name s h = elim (Bool-cases (is_applied D name s)) [
    | inl k ↦ rw k h
    | inr k ↦ rw k (any-append (λ m. str_eq m n) s.applied name ∙ rw h refl)
  ]

  pub Fallible-cases :
      (r : Fallible String) → ((e : String) × (r ≡ failed e)) ⊎ ((v : String) × (r ≡ value v))
  Fallible-cases (failed e) = inl (e, refl)
  Fallible-cases (value v) = inr (v, refl)

  module _ (dir name : String) (full : Counts → State Tables → Run D)
      (apart : (c d : Counts) (s : State Tables) → (full c s).1 ≡ (full d s).1) where
    -- One file in a run that goes through, before those of `full`.
    unfoldable pub whole : Counts → State Tables → Run D
    whole = checking D (all_done name) dir name full done

    whole_applied :
        (c : Counts) (s : State Tables)
        → is_applied D name s ≡ true
        → whole c s ≡ full (record c { skipped = c.skipped + 1 }) s
    unfolding whole
    whole_applied c s h = rw h refl

    whole_fresh :
        (c : Counts) (s : State Tables) (v : String)
        → is_applied D name s ≡ false
        → D.read_file (D.join dir name) ≡ value v
        → whole c s ≡ full (record c { applied = c.applied + 1 }) (marked D name (executed D v s))
    unfolding whole
    whole_fresh c s v h r =
        ap
          (λ (b : Bool).
            if b
            then full (record c { skipped = c.skipped + 1 }) s
            else reading D (all_done name) name full (D.read_file (D.join dir name)) c s)
          h
        ∙ ap (λ q. reading D (all_done name) name full q c s) r

    pub whole_apart : (c d : Counts) (s : State Tables) → (whole c s).1 ≡ (whole d s).1
    unfolding whole
    whole_apart c d s = elim (Bool-cases (is_applied D name s)) [
      | inl h ↦ rw h (apart _ _ s)
      | inr h ↦ elim (Fallible-cases (D.read_file (D.join dir name))) [
        | inl (e, r) ↦ rw (h, r) refl
        | inr (v, r) ↦ rw (h, r) (apart _ _ _)
      ]
    ]

  -- The same file in a run that may break off, before those of `part`.
  module _ (m : Meets) (dir name : String) (part full : Counts → State Tables → Run D)
      (clean : (m.exec ≢ lost) × (m.mark ≢ refused))
      (apart : (c d : Counts) (s : State Tables) → (full c s).1 ≡ (full d s).1)
      (keeps : (c : Counts) (s : State Tables)
        → is_applied D name s ≡ true
        → is_applied D name (part c s).1 ≡ true)
      (resumes : (b c d : Counts) (s : State Tables) → (full c (part b s).1).1 ≡ (full d s).1) where
    -- A file that is marked in the state `s` is behind both runs.
    marked_resumes :
        (b c d : Counts) (s : State Tables)
        → is_applied D name s ≡ true
        → (whole dir name full apart c (part b s).1).1 ≡ (full d s).1
    marked_resumes b c d s h =
        ap (λ (r : Run D). r.1) (whole_applied dir name full apart c (part b s).1 (keeps b s h))
        ∙ resumes b _ d s

    marking_resumes :
        (out : Outcome) (b c d : Counts) (s : State Tables) (v : String)
        → out ≢ refused
        → is_applied D name s ≡ false
        → D.read_file (D.join dir name) ≡ value v
        → (whole dir name full apart c (marking D out m.cause name part b (executed D v s)).1).1
          ≡ (whole dir name full apart d s).1
    marking_resumes done b c d s v k h r =
        marked_resumes _ c _ _ (marked_applied name (executed D v s))
        ∙ sym (ap (λ (r : Run D). r.1) (whole_fresh dir name full apart d s v h r))
    marking_resumes refused b c d s v k h r = absurd (k refl)
    marking_resumes lost b c d s v k h r =
        ap (λ (r : Run D). r.1)
          (whole_applied dir name full apart c _ (marked_applied name (executed D v s)))
        ∙ apart _ _ _
        ∙ sym (ap (λ (r : Run D). r.1) (whole_fresh dir name full apart d s v h r))

    executing_resumes :
        (out : Outcome) (b c d : Counts) (s : State Tables) (v : String)
        → out ≢ lost
        → is_applied D name s ≡ false
        → D.read_file (D.join dir name) ≡ value v
        → (whole dir name full apart c (executing D m name v part out b s).1).1
          ≡ (whole dir name full apart d s).1
    executing_resumes done b c d s v k h r = marking_resumes m.mark b c d s v clean.1 h r
    executing_resumes refused b c d s v k h r = whole_apart dir name full apart c d s
    executing_resumes lost b c d s v k h r = absurd (k refl)

    pub checking_resumes :
        (out : Outcome) (b c d : Counts) (s : State Tables)
        → (whole dir name full apart c (checking D m dir name part out b s).1).1
          ≡ (whole dir name full apart d s).1
    checking_resumes done b c d s = elim (Bool-cases (is_applied D name s)) [
      | inl h ↦ rw h (
          marked_resumes _ c _ s h
          ∙ sym (ap (λ (r : Run D). r.1) (whole_applied dir name full apart d s h)))
      | inr h ↦ elim (Fallible-cases (D.read_file (D.join dir name))) [
        | inl (e, r) ↦ rw (h, r) (whole_apart dir name full apart c d s)
        | inr (v, r) ↦ rw (h, r) (executing_resumes m.exec b c d s v clean.0 h r)
      ]
    ]
    checking_resumes refused b c d s = whole_apart dir name full apart c d s
    checking_resumes lost b c d s = whole_apart dir name full apart c d s

  -- A name stays in the list, whatever the statements meet.
  module _ (m : Meets) (dir name : String) (next : Counts → State Tables → Run D) (n : String)
      (keeps : (c : Counts) (s : State Tables)
        → is_applied D n s ≡ true
        → is_applied D n (next c s).1 ≡ true) where
    marking_keeps :
        (out : Outcome) (c : Counts) (s : State Tables)
        → is_applied D n s ≡ true
        → is_applied D n (marking D out m.cause name next c s).1 ≡ true
    marking_keeps done c s h = keeps _ (marked D name s) (still_marked n name s h)
    marking_keeps refused c s h = h
    marking_keeps lost c s h = still_marked n name s h

    executing_keeps :
        (out : Outcome) (v : String) (c : Counts) (s : State Tables)
        → is_applied D n s ≡ true
        → is_applied D n (executing D m name v next out c s).1 ≡ true
    executing_keeps done v c s h = marking_keeps m.mark c (executed D v s) h
    executing_keeps refused v c s h = h
    executing_keeps lost v c s h = h

    pub checking_keeps :
        (out : Outcome) (c : Counts) (s : State Tables)
        → is_applied D n s ≡ true
        → is_applied D n (checking D m dir name next out c s).1 ≡ true
    checking_keeps done c s h = elim (Bool-cases (is_applied D name s)) [
      | inl k ↦ rw k (keeps _ s h)
      | inr k ↦ elim (Fallible-cases (D.read_file (D.join dir name))) [
        | inl (e, r) ↦ rw (k, r) h
        | inr (v, r) ↦ rw (k, r) (executing_keeps m.exec v c s h)
      ]
    ]
    checking_keeps refused c s h = h
    checking_keeps lost c s h = h
