-- ===== src/Redis/RateLimit/Kept.antt =====
-- The members that internal/redis/ratelimit.go keeps for a key, beside the calls that it allowed.
use nimbus_app.Prelude.{
  ℕ, ◌+◌, ◌-◌, ◌≤◌, ◌<◌, ◌^◌, ◌≡◌, refl, ap, ◌∙◌, ◌⊎◌, inl, inr, String, Bool, true, false, List,
  [], ◌∷◌, keep, length, length-keep, All, arith, ltb, str_eq_apart,
}
use nimbus_app.Db.Sorter.{count}
use nimbus_app.Db.Statement.{any}
use nimbus_app.Db.Rows.{any-keep, any_of_same}
use nimbus_app.Redis.RateLimit.{
  Member, above, named, SortedSets, RateLimitConfig, member_name, key_ttl,
}
use nimbus_app.Redis.RateLimit.Names.{names_differ}

count-keep-above :
    (a x : ℕ) (ms : List Member) → a ≤ x → count (above x) (keep (above a) ms) ≡ count (above x) ms
count-keep-above a x [] h = refl
count-keep-above a x (m ∷ ms) h = ground (arith, count-keep-above a x ms h)

pub count_all : (ms : List Member) → count (λ m. true) ms ≡ length ms
count_all [] = refl
count_all (m ∷ ms) = omega (arith, count_all ms)

pub count-above_at_most : (x : ℕ) (ms : List Member) → count (above x) ms ≤ length ms
count-above_at_most x [] = omega arith
count-above_at_most x (m ∷ ms) = ground (arith, count-above_at_most x ms)

-- A key lives at least as long as the window.
window-key_ttl : (window : ℕ) → window ≤ key_ttl window
unfolding key_ttl
window-key_ttl window = omega arith

module _ (S : SortedSets) (config : RateLimitConfig) where
  -- The calls whose time is, as a double, after `x`.
  abbrev pub since : ℕ → ℕ → Bool
  since x a = ltb x (S.double a)

  module _ (k : String) where
    abbrev pub start_of : ℕ → ℕ
    start_of t = S.double (t - config.window)

    -- From the time `last` on: the window's calls are members, the members are at most the limit, no
    -- call is later, and no later call's name is taken.
    abbrev pub Kept : ℕ → List ℕ → S.Store → Type 0
    Kept last log s =
        ((t : ℕ)
          → last ≤ t
          → (x : ℕ) → start_of t ≤ x
          → count (since x) log ≤ count (above x) (S.members t k s))
        × ((t : ℕ) → last ≤ t → length (S.members t k s) ≤ config.limit)
        × All (λ a. a ≤ last) log
        × ((t u : ℕ)
            → last ≤ t
            → last < u
            → u < 2 ^ 64
            → any (named (member_name u 0)) (S.members t k s) ≡ false)

    All-later : (a b : ℕ) (log : List ℕ) → a ≤ b → All (λ x. x ≤ a) log → All (λ x. x ≤ b) log
    All-later a b [] h hs = tt
    All-later a b (x ∷ xs) h hs = (omega (arith, hs.0), All-later a b xs h hs.1)

    none_since :
        (now x : ℕ) (log : List ℕ)
        → S.double now ≤ x
        → All (λ a. a ≤ now) log
        → count (since x) log ≡ 0
    none_since now x [] h hs = refl
    none_since now x (a ∷ log) h hs =
        ground (arith, S.double_mono a now hs.0, none_since now x log h hs.1)

    unfoldable pub cleaned : ℕ → S.Store → S.Store
    cleaned now s = S.zrem_up_to now k (start_of now) s

    pub clean_keeps :
        (last now : ℕ) (log : List ℕ) (s : S.Store)
        → last ≤ now
        → Kept last log s
        → Kept now log (cleaned now s)
    unfolding cleaned
    clean_keeps last now log s l (h, b, e, n) = (
      λ t g x i. rw (S.members-zrem now t k (start_of now) s g) (
          rw
            (count-keep-above (start_of now) x (S.members t k s) (
              omega (arith, S.double_mono (now - config.window) (t - config.window) (omega arith))))
            (h t (omega arith) x i)),
      λ t g.
          rw (S.members-zrem now t k (start_of now) s g) (
            omega (arith, length-keep (above (start_of now)) (S.members t k s), b t (omega arith))),
      All-later last now log l e,
      λ t u g i j. rw (S.members-zrem now t k (start_of now) s g) (
          any-keep (named (member_name u 0)) (above (start_of now)) (S.members t k s)
            (n t u (omega arith) (omega arith) j)),
    )

    unfoldable pub new_member : ℕ → Member
    new_member now = (member_name now 0, S.double (S.double now + 0))

    unfoldable pub with_member : ℕ → S.Store → S.Store
    with_member now s = S.expire now k (key_ttl config.window) (S.zadd now k (new_member now) s)

    module _ (now : ℕ) (log : List ℕ) (s : S.Store) (kept : Kept now log s)
        (absent : any (named (member_name now 0)) (S.members now k s) ≡ false) where
      counts_more :
          (p : Member → Bool)
          → count p (S.members now k (S.zadd now k (new_member now) s))
            ≡ count p (new_member now ∷ S.members now k s)
      unfolding new_member
      counts_more p = S.members-zadd now k (new_member now) s p absent

      score : (a : ℕ) → S.double (S.double a + 0) ≡ S.double a
      score a = ap S.double (omega arith) ∙ S.double_idem a

      window_more :
          (t : ℕ)
          → now ≤ t
          → (x : ℕ) → start_of t ≤ x
          → (t < now + (key_ttl config.window)) ⊎ (now + (key_ttl config.window) ≤ t)
          → count (since x) (now ∷ log) ≤ count (above x) (S.members t k (with_member now s))
      unfolding with_member new_member
      window_more t g x i (inl f) =
          rw
            (
              S.members-expire now t k (key_ttl config.window) (S.zadd now k (new_member now) s) g
                  f,
              counts_more (above x),
            )
            (rw (score now) (
              omega (
                arith,
                kept.0 now (omega arith) x (
                    omega (
                      arith,
                      S.double_mono (now - config.window) (t - config.window) (omega arith),
                    )),
              )))
      window_more t g x i (inr f) = omega (
        arith,
        window-key_ttl config.window,
        none_since now x (now ∷ log)
            (omega (
              arith,
              S.double_mono now (t - config.window) (omega (arith, window-key_ttl config.window)),
            ))
            (omega arith, kept.2),
      )

      at_most :
          length (S.members now k s) + 1 ≤ config.limit
          → (t : ℕ) → now ≤ t
          → (t < now + (key_ttl config.window)) ⊎ (now + (key_ttl config.window) ≤ t)
          → length (S.members t k (with_member now s)) ≤ config.limit
      unfolding with_member
      at_most room t g (inl f) =
          rw
            (S.members-expire now t k (key_ttl config.window) (S.zadd now k (new_member now) s) g f)
            (omega (
              arith,
              counts_more (λ m. true),
              count_all (S.members now k (S.zadd now k (new_member now) s)),
              count_all (S.members now k s),
            ))
      at_most room t g (inr f) =
          rw
            (S.members-expire_late now t k (key_ttl config.window) (S.zadd now k (new_member now) s)
              f)
            (omega arith)

      names_free :
          (t u : ℕ)
          → now ≤ t
          → now < u
          → u < 2 ^ 64
          → (t < now + (key_ttl config.window)) ⊎ (now + (key_ttl config.window) ≤ t)
          → any (named (member_name u 0)) (S.members t k (with_member now s)) ≡ false
      unfolding with_member any new_member
      names_free t u g i j (inl f) =
          rw
            (S.members-expire now t k (key_ttl config.window) (S.zadd now k (new_member now) s) g f)
            (any_of_same (named (member_name u 0)) _ (new_member now ∷ S.members now k s)
                (counts_more (named (member_name u 0)))
              ∙ rw
                  (str_eq_apart (member_name now 0) (member_name u 0)
                    (names_differ now u (omega arith) j (λ e. omega arith)))
                  (kept.3 now u (omega arith) i j))
      names_free t u g i j (inr f) =
          rw
            (S.members-expire_late now t k (key_ttl config.window) (S.zadd now k (new_member now) s)
              f)
            refl

      pub add_keeps :
          length (S.members now k s) + 1 ≤ config.limit → Kept now (now ∷ log) (with_member now s)
      add_keeps room = (
        λ t g x i. window_more t g x i (omega arith),
        λ t g. at_most room t g (omega arith),
        (omega arith, kept.2),
        λ t u g i j. names_free t u g i j (omega arith),
      )

    pub wait_keeps :
        (last now : ℕ) (log : List ℕ) (s : S.Store) → last ≤ now → Kept last log s → Kept now log s
    wait_keeps last now log s l (h, b, e, n) = (
      λ t g x i. h t (omega arith) x i,
      λ t g. b t (omega arith),
      All-later last now log l e,
      λ t u g i j. n t u (omega arith) (omega arith) j,
    )

    -- A member whose call got no answer.
    pub unlogged_keeps :
        (now a : ℕ) (log : List ℕ) (s : S.Store) → Kept now (a ∷ log) s → Kept now log s
    unlogged_keeps now a log s (h, b, e, n) = (λ t g x i. omega (arith, h t g x i), b, e.1, n)
