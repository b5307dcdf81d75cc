-- ===== src/Redis/Idempotency/Replay.antt =====
-- What `CheckOrReserve` of internal/redis/idempotency.go answers while a result or a reservation is
-- kept, whatever other clients do in between.
use nimbus_app.Prelude.{
  ℕ, ◌+◌, ◌<◌, ◌≡◌, refl, String, true, some, List, All, arith, Option-cases, inl, inr, ◌⊎◌, ◌≢◌,
}
use nimbus_app.Db.Statement.{Outcome, done, refused, lost}
use nimbus_app.Redis.{
  IdempotencyResult, text, json, Server, duplicate_request, redis_failed, reply, failure,
}
use nimbus_app.Redis.Idempotency.{
  build_key, processing_marker, processing_ttl, stamped, check, store, reserve, check_or_reserve,
  Request,
}
use nimbus_app.Redis.Idempotency.Holding.{act_all, Holds, Leaves, act_all-Holds}

module _ (R : Server) (tenant_id key : String) where
  check-held :
      (t t2 deadline : ℕ) (out : Outcome) (r : IdempotencyResult) (s : R.Store)
      → Holds R (build_key tenant_id key) (json r) deadline s
      → t < deadline
      → check_or_reserve R done out t t2 tenant_id key s ≡ (reply (some r), s)
  unfolding check_or_reserve check
  check-held t t2 deadline out r s h lt = rw (h t lt) refl

  check-reserved :
      (t t2 deadline : ℕ) (out : Outcome) (s : R.Store)
      → Holds R (build_key tenant_id key) (text processing_marker) deadline s
      → t < deadline
      → check_or_reserve R done out t t2 tenant_id key s ≡ (failure duplicate_request, s)
  unfolding check_or_reserve check
  check-reserved t t2 deadline out s h lt = rw (h t lt) refl

  pub replays_answered :
      (now unix ttl : ℕ) (result : IdempotencyResult) (s : R.Store) (qs : List Request) (t t2 : ℕ)
      (out : Outcome)
      → All (Leaves R (build_key tenant_id key) (json (stamped unix result)) (now + ttl)) qs
      → t < now + ttl
      → let s' = act_all R qs (store R done now unix tenant_id key result ttl s).1 in
        check_or_reserve R done out t t2 tenant_id key s' ≡ (reply (some (stamped unix result)), s')
  unfolding store
  replays_answered now unix ttl result s qs t t2 out l lt =
      check-held t t2 (now + ttl) out (stamped unix result) _
        (act_all-Holds R (build_key tenant_id key) (json (stamped unix result)) (now + ttl) qs _
          (λ u b. R.get-set now u (build_key tenant_id key) (json (stamped unix result)) ttl s b) l)
        lt

  -- What a call whose GET is not answered gives.
  unanswered :
      (get out : Outcome) (t t2 : ℕ) (s : R.Store)
      → get ≢ done
      → check_or_reserve R get out t t2 tenant_id key s
        ≡ (failure (redis_failed "redis get failed"), s)
  unfolding check_or_reserve check
  unanswered done out t t2 s h = absurd (h refl)
  unanswered refused out t t2 s h = refl
  unanswered lost out t t2 s h = refl

  -- A result that was stored at `now` for `ttl`: until then every `CheckOrReserve` with its tenant
  -- and key gets this result back and changes nothing, whatever commands came in between, as long as
  -- none of them stored another result under this key: a release does not remove it. If the server does
  -- not answer its GET, the call is an error instead, and changes nothing either.
  pub replays_stored :
      (now unix ttl : ℕ) (result : IdempotencyResult) (s : R.Store) (qs : List Request) (t t2 : ℕ)
      (get out : Outcome)
      → All (Leaves R (build_key tenant_id key) (json (stamped unix result)) (now + ttl)) qs
      → t < now + ttl
      → let s' = act_all R qs (store R done now unix tenant_id key result ttl s).1 in
        let call = check_or_reserve R get out t t2 tenant_id key s' in
        ((get ≡ done) × (call ≡ (reply (some (stamped unix result)), s')))
        ⊎ ((get ≢ done) × (call ≡ (failure (redis_failed "redis get failed"), s')))
  replays_stored now unix ttl result s qs t t2 done out l lt =
      inl (refl, replays_answered now unix ttl result s qs t t2 out l lt)
  replays_stored now unix ttl result s qs t t2 refused out l lt =
      inr (λ e. ground arith, unanswered refused out t t2 _ (λ e. ground arith))
  replays_stored now unix ttl result s qs t t2 lost out l lt =
      inr (λ e. ground arith, unanswered lost out t t2 _ (λ e. ground arith))

  excludes_answered :
      (now : ℕ) (s : R.Store) (qs : List Request) (t t2 : ℕ) (out : Outcome)
      → (reserve R done now tenant_id key s).0 ≡ reply true
      → All (Leaves R (build_key tenant_id key) (text processing_marker) (now + processing_ttl)) qs
      → t < now + processing_ttl
      → let s' = act_all R qs (reserve R done now tenant_id key s).1 in
        check_or_reserve R done out t t2 tenant_id key s' ≡ (failure duplicate_request, s')
  unfolding reserve
  excludes_answered now s qs t t2 out e l lt =
      check-reserved t t2 (now + processing_ttl) out _
        (act_all-Holds R (build_key tenant_id key) (text processing_marker) (now + processing_ttl)
          qs _
          (λ u b. elim (Option-cases (R.get now (build_key tenant_id key) s)) [
            | inl a ↦
                rw
                  (R.set_nx-absent now (build_key tenant_id key) (text processing_marker)
                    processing_ttl s a)
                  (R.get-set now u (build_key tenant_id key) (text processing_marker) processing_ttl
                    s b)
            | inr (v, a) ↦ ground (
              arith,
              R.set_nx-present now (build_key tenant_id key) (text processing_marker) v
                  processing_ttl s a,
            )
          ])
          l)
        lt

  -- After a reservation that was answered with true, no `CheckOrReserve` with its tenant and key in the
  -- next five minutes finds the key free, and none changes anything, whatever commands came in between,
  -- as long as none of them stored a result or released the key: it is refused as a duplicate or, if the
  -- server does not answer its GET, an error.
  pub reservation_excludes :
      (now : ℕ) (s : R.Store) (qs : List Request) (t t2 : ℕ) (get out : Outcome)
      → (reserve R done now tenant_id key s).0 ≡ reply true
      → All (Leaves R (build_key tenant_id key) (text processing_marker) (now + processing_ttl)) qs
      → t < now + processing_ttl
      → let s' = act_all R qs (reserve R done now tenant_id key s).1 in
        let call = check_or_reserve R get out t t2 tenant_id key s' in
        ((get ≡ done) × (call ≡ (failure duplicate_request, s')))
        ⊎ ((get ≢ done) × (call ≡ (failure (redis_failed "redis get failed"), s')))
  reservation_excludes now s qs t t2 done out e l lt =
      inl (refl, excludes_answered now s qs t t2 out e l lt)
  reservation_excludes now s qs t t2 refused out e l lt =
      inr (λ e. ground arith, unanswered refused out t t2 _ (λ e. ground arith))
  reservation_excludes now s qs t t2 lost out e l lt =
      inr (λ e. ground arith, unanswered lost out t t2 _ (λ e. ground arith))
