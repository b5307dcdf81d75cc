-- ===== src/Redis/RateLimit/Window.antt =====
-- How many calls internal/redis/ratelimit.go allows for a key in a window, one call after the other.
use nimbus_app.Prelude.{
  ℕ, ◌+◌, ◌-◌, ◌≤◌, ◌<◌, ◌^◌, ◌≡◌, refl, inl, inr, String, false, List, [], ◌∷◌, length, arith, ltb,
  if◌then◌else◌, Bool-cases,
}
use nimbus_app.Db.Sorter.{count}
use nimbus_app.Db.Statement.{Outcome, done, refused, lost, any}
use nimbus_app.Db.Rows.{any-keep}
use nimbus_app.Redis.{Reply, reply, failure}
use nimbus_app.Redis.RateLimit.{
  above, named, SortedSets, RateLimitConfig, RateLimitResult, Meets, redis_key, member_name,
  count_requests, add_members, add_requests, added, counted, allow_n, allow,
}
use nimbus_app.Redis.RateLimit.Kept.{
  count_all, count-above_at_most, since, start_of, Kept, cleaned, new_member, with_member,
  clean_keeps, wait_keeps, unlogged_keeps, add_keeps,
}

module _ (S : SortedSets) (config : RateLimitConfig) where
  -- The calls allowed, the latest first, after one more answer.
  abbrev pub logged : ℕ → Reply RateLimitResult → List ℕ → List ℕ
  logged now (reply r) log = if r.allowed then now ∷ log else log
  logged now (failure e) log = log

  unfoldable pub run_calls : List Meets → String → List ℕ × S.Store → List ℕ × S.Store
  run_calls [] key p = p
  run_calls (m ∷ ms) key p =
      let r = allow S config m key p.1 in run_calls ms key (logged m.now r.0 p.0, r.1)

  -- Each call comes after the one before it, and the times are of 64 bits.
  abbrev pub Increasing : ℕ → List Meets → Type 0
  Increasing last [] = Unit
  Increasing last (m ∷ ms) = (last < m.now) × (m.now < 2 ^ 64) × Increasing m.now ms

  abbrev pub last_time : ℕ → List Meets → ℕ
  last_time last [] = last
  last_time last (m ∷ ms) = last_time m.now ms

  module _ (k : String) where
    -- The second pipeline after a count that leaves room.
    adding_keeps :
        (out : Outcome) (now current : ℕ) (log : List ℕ) (s : S.Store)
        → Kept S config k now log s
        → Kept S config k now (now ∷ log) (with_member S config k now s)
        → let r = added S config 1 now current (add_requests S config out 1 now k s) in
          Kept S config k now (logged now r.0 log) r.1
    unfolding add_requests add_members with_member new_member
    adding_keeps done now current log s h g = g
    adding_keeps refused now current log s h g = h
    adding_keeps lost now current log s h g = unlogged_keeps S config k now now log _ g

    room_keeps :
        (m : Meets) (log : List ℕ) (s : S.Store)
        → Kept S config k m.now log s
        → any (named (member_name m.now 0)) (S.members m.now k s) ≡ false
        → let r = counted S config m 1 k (reply (length (S.members m.now k s)), s) in
          Kept S config k m.now (logged m.now r.0 log) r.1
    room_keeps m log s h absent =
        elim (Bool-cases (ltb config.limit (length (S.members m.now k s) + 1))) [
          | inl e ↦ rw e h
          | inr e ↦ rw e (
              adding_keeps m.adding m.now (length (S.members m.now k s)) log s h
                (add_keeps S config k m.now log s h absent (ground arith)))
        ]

    call_keeps :
        (out : Outcome) (m : Meets) (last : ℕ) (log : List ℕ) (s : S.Store)
        → last < m.now
        → m.now < 2 ^ 64
        → Kept S config k last log s
        → let r = counted S config m 1 k (count_requests S config out m.now k s) in
          Kept S config k m.now (logged m.now r.0 log) r.1
    unfolding count_requests cleaned
    call_keeps done m last log s l f h =
        room_keeps m log _ (clean_keeps S config k last m.now log s (omega arith) h) (
          rw (S.members-zrem m.now m.now k (start_of S config k m.now) s (omega arith)) (
            any-keep (named (member_name m.now 0)) (above (start_of S config k m.now))
              (S.members m.now k s) (h.3 m.now m.now (omega arith) l f)))
    call_keeps refused m last log s l f h = wait_keeps S config k last m.now log s (omega arith) h
    call_keeps lost m last log s l f h = clean_keeps S config k last m.now log s (omega arith) h

  calls_keep :
      (ms : List Meets) (key : String) (last : ℕ) (log : List ℕ) (s : S.Store)
      → Increasing last ms
      → Kept S config (redis_key key) last log s
      → let r = run_calls ms key (log, s) in
        Kept S config (redis_key key) (last_time last ms) r.0 r.1
  unfolding run_calls allow allow_n
  calls_keep [] key last log s i h = h
  calls_keep (m ∷ ms) key last log s i h =
      calls_keep ms key m.now _ _ i.2 (call_keeps (redis_key key) m.counting m last log s i.0 i.1 h)

  -- Calls for one key that has no members at first, one after the other at later and later times,
  -- each of whose pipelines may be carried out, refused or lose its answer: at any time `t` from the
  -- last call on, at most `Limit` of the calls that were allowed lie in the window before `t`, with
  -- times compared as the doubles that the scores are.
  pub window_holds_limit :
      (ms : List Meets) (key : String) (start : ℕ) (s : S.Store) (t : ℕ)
      → Increasing start ms
      → ((u : ℕ) → S.members u (redis_key key) s ≡ [])
      → last_time start ms ≤ t
      → count (since S config (S.double (t - config.window))) (run_calls ms key ([], s)).0
        ≤ config.limit
  unfolding any
  window_holds_limit ms key start s t i none late =
      let kept = calls_keep ms key start [] s i (
        λ u g x j. rw (none u) (omega arith),
        λ u g. rw (none u) (omega arith),
        tt,
        λ u v g j f. rw (none u) refl,
      ) in
      omega (
        arith,
        kept.0 t late (S.double (t - config.window)) (omega arith),
        kept.1 t late,
        count_all (S.members t (redis_key key) (run_calls ms key ([], s)).1),
        count-above_at_most (S.double (t - config.window))
            (S.members t (redis_key key) (run_calls ms key ([], s)).1),
      )
