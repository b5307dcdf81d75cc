-- ===== src/Redis/Idempotency/Holding.antt =====
-- A value of internal/redis/idempotency.go stays under its key while other clients' commands go on.
use nimbus_app.Prelude.{
  ℕ, ◌<◌, ◌≡◌, refl, ◌∙◌, not, ◌≢◌, String, Bool, true, false, some, List, [], ◌∷◌, All, arith, ◌⊎◌,
  inl, inr, Option-cases, Bool-cases,
}
use nimbus_app.Redis.{Value, text, json, Server, command_keeps}
use nimbus_app.Redis.Idempotency.{
  build_key, processing_marker, processing_ttl, stamped, store, reserve, release, Action,
  release_script, holds_marker, check_one, reserve_one, release_one, store_one, Request, act,
}

module _ (R : Server) where
  abbrev pub act_all : List Request → R.Store → R.Store
  act_all [] s = s
  act_all (q ∷ qs) s = act_all qs (act R q.action q s)

module _ (R : Server) (k : String) where
  abbrev pub Holds : Value → ℕ → R.Store → Type 0
  Holds v deadline s = (t : ℕ) → t < deadline → R.get t k s ≡ some v

  pub set_nx-other :
      (t now : ℕ) (l : String) (v : Value) (ttl : ℕ) (s : R.Store)
      → k ≢ l
      → R.get t k (R.set_nx now l v ttl s).1 ≡ R.get t k s
  set_nx-other t now l v ttl s h = elim (Option-cases (R.get now l s)) [
    | inl e ↦ rw (R.set_nx-absent now l v ttl s e) (R.get-set_other now t l k v ttl s h)
    | inr (u, e) ↦ rw (R.set_nx-present now l v u ttl s e) refl
  ]

  pub script-other :
      (t now : ℕ) (l : String) (s : R.Store)
      → k ≢ l
      → R.get t k (release_script R now l s) ≡ R.get t k s
  script-other t now l s h = elim (Bool-cases (holds_marker (R.get now l s))) [
    | inl e ↦ rw e (R.get-del_other t l k s h)
    | inr e ↦ rw e refl
  ]

  -- A command for another key.
  pub act-other :
      (t : ℕ) (a : Action) (q : Request) (s : R.Store)
      → k ≢ build_key q.tenant_id q.key
      → R.get t k (act R a q s) ≡ R.get t k s
  unfolding reserve release store
  act-other t check_one q s h = refl
  act-other t reserve_one q s h =
      command_keeps q.outcome "redis setnx failed" _ s (λ x. R.get t k x ≡ R.get t k s)
        (set_nx-other t q.now (build_key q.tenant_id q.key) (text processing_marker) processing_ttl
          s h)
        refl
  act-other t release_one q s h =
      command_keeps q.outcome "redis release failed" _ s (λ x. R.get t k x ≡ R.get t k s)
        (script-other t q.now (build_key q.tenant_id q.key) s h) refl
  act-other t (store_one r ttl) q s h =
      command_keeps q.outcome "redis set failed" _ s (λ x. R.get t k x ≡ R.get t k s)
        (R.get-set_other q.now t (build_key q.tenant_id q.key) k (json (stamped q.unix r)) ttl s h)
        refl

  -- A command before the deadline that cannot put another value at the key: it is for another key,
  -- or it is a check, a reservation, or a release while the value is not the marker.
  abbrev pub harmless : Value → Action → Bool
  harmless v check_one = true
  harmless v reserve_one = true
  harmless v release_one = not (holds_marker (some v))
  harmless v (store_one r ttl) = false

  abbrev pub Leaves : Value → ℕ → Request → Type 0
  Leaves v deadline q =
      (q.now < deadline)
      × ((k ≢ build_key q.tenant_id q.key)
          ⊎ ((build_key q.tenant_id q.key ≡ k) × (harmless v q.action ≡ true)))

  act-same :
      (v : Value) (deadline : ℕ) (a : Action) (q : Request) (s : R.Store)
      → Holds v deadline s
      → q.now < deadline
      → build_key q.tenant_id q.key ≡ k
      → harmless v a ≡ true
      → Holds v deadline (act R a q s)
  unfolding reserve release
  act-same v deadline check_one q s h lt e a = h
  act-same v deadline reserve_one q s h lt e a =
      command_keeps q.outcome "redis setnx failed" _ s (Holds v deadline)
        (rw e (
          rw (R.set_nx-present q.now k (text processing_marker) v processing_ttl s (h q.now lt)) h))
        h
  act-same v deadline release_one q s h lt e a =
      command_keeps q.outcome "redis release failed" _ s (Holds v deadline)
        (rw e (
          rw (h q.now lt)
            (elim (Bool-cases (holds_marker (some v))) [ inl m ↦ ground arith | inr m ↦ rw m h ])))
        h
  act-same v deadline (store_one r ttl) q s h lt e a = ground arith

  pub act_all-Holds :
      (v : Value) (deadline : ℕ) (qs : List Request) (s : R.Store)
      → Holds v deadline s
      → All (Leaves v deadline) qs
      → Holds v deadline (act_all R qs s)
  act_all-Holds v deadline [] s h l = h
  act_all-Holds v deadline (q ∷ qs) s h ((lt, inl apart), l) =
      act_all-Holds v deadline qs (act R q.action q s)
        (λ t b. act-other t q.action q s apart ∙ h t b) l
  act_all-Holds v deadline (q ∷ qs) s h ((lt, inr (e, a)), l) =
      act_all-Holds v deadline qs (act R q.action q s) (act-same v deadline q.action q s h lt e a) l
