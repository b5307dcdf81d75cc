-- ===== src/Redis/Examples.antt =====
-- Runs of internal/redis/idempotency.go on a server that keeps its keys in a list.
use nimbus_app.Prelude.{◌≡◌, ◌≢◌, ◌⊎◌, refl, some, none, List, [], ◌∷◌, inr, arith}
use nimbus_app.Db.Statement.{done, lost}
use nimbus_app.Redis.{IdempotencyResult, duplicate_request, redis_failed, reply, failure}
use nimbus_app.Redis.Memory.{memory, get}
use nimbus_app.Redis.Idempotency.{
  stamped, check, store, reserve, check_or_reserve, Request, reserve_one, release_one, check_one,
}
use nimbus_app.Redis.Idempotency.Holding.{act_all}
use nimbus_app.Redis.Idempotency.Replay.{replays_stored, reservation_excludes}

abbrev result : IdempotencyResult
result = record { notification_id = "n-1"; status_code = 201; created_at = 0 }

-- Another client's commands with the same key: a reservation and a release.
abbrev commands : List Request
commands =
    record { tenant_id = "t"; key = "k"; action = reserve_one; outcome = done; now = 200; unix = 0 }
    ∷ record {
      tenant_id = "t";
      key = "k";
      action = release_one;
      outcome = lost;
      now = 300;
      unix = 0;
    }
    ∷ []

abbrev checks : List Request
checks =
    record { tenant_id = "t"; key = "k"; action = reserve_one; outcome = done; now = 200; unix = 0 }
    ∷ record { tenant_id = "t"; key = "k"; action = check_one; outcome = done; now = 300; unix = 0 }
    ∷ []

nothing_kept : check memory done 1 "t" "k" [] ≡ reply none
unfolding check get
nothing_kept = refl

replays_stored_example :
    let s' = act_all memory commands (store memory done 100 7 "t" "k" result 5000 []).1 in
    let call = check_or_reserve memory done done 400 401 "t" "k" s' in
    ((done ≡ done) × (call ≡ (reply (some (stamped 7 result)), s')))
    ⊎ ((done ≢ done) × (call ≡ (failure (redis_failed "redis get failed"), s')))
replays_stored_example =
    replays_stored memory "t" "k" 100 7 5000 result [] commands 400 401 done done
      ((ground arith, inr (refl, refl)), ((ground arith, inr (refl, refl)), tt)) (ground arith)

reservation_excludes_example :
    let s' = act_all memory checks (reserve memory done 100 "t" "k" []).1 in
    let call = check_or_reserve memory done done 400 401 "t" "k" s' in
    ((done ≡ done) × (call ≡ (failure duplicate_request, s')))
    ⊎ ((done ≢ done) × (call ≡ (failure (redis_failed "redis get failed"), s')))
unfolding reserve get
reservation_excludes_example =
    reservation_excludes memory "t" "k" 100 [] checks 400 401 done done refl
      ((ground arith, inr (refl, refl)), ((ground arith, inr (refl, refl)), tt)) (ground arith)
