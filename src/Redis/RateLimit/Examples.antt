-- ===== src/Redis/RateLimit/Examples.antt =====
-- Calls of internal/redis/ratelimit.go with a limit of two in a window of ten seconds.
use nimbus_app.Prelude.{ℕ, ◌+◌, ◌-◌, ◌*◌, ◌≤◌, ◌≡◌, refl, String, none, List, [], ◌∷◌, arith}
use nimbus_app.Prelude.Fallible.{decimal_in}
use nimbus_app.Breaker.{second}
use nimbus_app.Db.Sorter.{count}
use nimbus_app.Db.Statement.{done}
use nimbus_app.Redis.{Reply, reply}
use nimbus_app.Redis.RateLimit.{
  RateLimitConfig, Meets, count_requests, add_members, add_requests, allow_n, allow, redis_key,
  key_ttl,
}
use nimbus_app.Redis.RateLimit.Memory.{Entry, memory}
use nimbus_app.Redis.RateLimit.Kept.{since}
use nimbus_app.Redis.RateLimit.Window.{run_calls, window_holds_limit}

abbrev two : RateLimitConfig
two = record { limit = 2; window = 10 * second }

abbrev at : ℕ → Meets
at t = record { now = t * second; counting = done; adding = done }

abbrev no_keys : String → Entry
no_keys k = ([], none)

abbrev five_calls : List Meets
five_calls = at 100 ∷ at 101 ∷ at 102 ∷ at 111 ∷ at 112 ∷ []

-- The third call is refused; the fourth and the fifth have room again.
allows_four :
    (run_calls memory two five_calls "tenant:7" ([], no_keys)).0
    ≡ 112 * second ∷ 111 * second ∷ 101 * second ∷ 100 * second ∷ []
unfolding run_calls allow allow_n count_requests add_requests add_members decimal_in key_ttl
allows_four = refl

-- Two clients that count before either adds are both let through with one place left.
abbrev counted_twice : (String → Entry) × ℕ × ℕ
counted_twice =
    let s = (run_calls memory two (at 100 ∷ []) "tenant:7" ([], no_keys)).1 in
    let a = count_requests memory two done (101 * second) (redis_key "tenant:7") s in
    let b = count_requests memory two done (102 * second) (redis_key "tenant:7") a.1 in
    (b.1, answer a.0, answer b.0)
  where
    answer : Reply ℕ → ℕ
    answer (reply n) = n
    answer _ = 0

clients_race : counted_twice.1 + 1 ≤ two.limit
unfolding run_calls allow allow_n count_requests add_requests add_members decimal_in key_ttl
clients_race = omega arith

clients_race_too : counted_twice.2 + 1 ≤ two.limit
unfolding run_calls allow allow_n count_requests add_requests add_members decimal_in key_ttl
clients_race_too = omega arith

window_holds_limit_example :
    count
      (since memory two (112 * second - 10 * second))
      (run_calls memory two five_calls "tenant:7" ([], no_keys)).0
    ≤ 2
window_holds_limit_example =
    window_holds_limit memory two five_calls "tenant:7" 0 no_keys (112 * second)
      (
        omega arith,
        omega arith,
        (
          omega arith,
          omega arith,
          (omega arith, omega arith, (omega arith, omega arith, (omega arith, omega arith, tt))),
        ),
      )
      (λ u. refl) (omega arith)
