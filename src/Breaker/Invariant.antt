-- ===== src/Breaker/Invariant.antt =====
-- What holds of a breaker between any two calls of circuitbreaker.go.
use nimbus_app.Prelude.{ℕ, ◌^◌, ◌≤◌, ◌<◌, ◌≡◌, ◌≢◌, List, [], ◌∷◌, arith}
use nimbus_app.Prelude.Int.{ℤ, pos_part}
use nimbus_app.Breaker.{
  closed, half_open, Config, CircuitBreaker, new, Call, allows, succeeds, fails, resets, step, run,
}

-- A limit of the configuration: a positive int64.
pub record IsLimit (n : ℤ) : Type 0 where
  pub positive : 0 < pos_part n
  pub fits : pos_part n < 2 ^ 63

pub record IsSound (cb : CircuitBreaker) : Type 0 where
  pub max_failures : IsLimit cb.config.max_failures
  pub timeout : IsLimit cb.config.recovery_timeout
  pub max_probes : IsLimit cb.config.half_open_max_requests
  pub below : cb.state ≡ closed → cb.failure_count < pos_part cb.config.max_failures
  pub probes : cb.half_open_requests ≤ pos_part cb.config.half_open_max_requests
  pub probing : cb.state ≡ half_open → 0 < cb.half_open_requests
  pub idle : cb.state ≢ half_open → cb.half_open_requests ≡ 0

-- The fields are Go values: none of them passes the largest int64.
pub record FitsInt64 (cfg : Config) : Type 0 where
  pub max_failures : pos_part cfg.max_failures < 2 ^ 63
  pub timeout : pos_part cfg.recovery_timeout < 2 ^ 63
  pub max_probes : pos_part cfg.half_open_max_requests < 2 ^ 63

pub new-IsSound : (cfg : Config) (now : ℕ) → FitsInt64 cfg → IsSound (new cfg now)
unfolding new
new-IsSound cfg now h = ground arith

pub step-IsSound : (c : Call) (cb : CircuitBreaker) → IsSound cb → IsSound (step c cb)
unfolding step
step-IsSound (allows now) cb h = ground arith
step-IsSound (succeeds now) cb h = ground arith
step-IsSound (fails now) cb h = ground arith
step-IsSound (resets now) cb h = ground arith

pub run-IsSound_from : (cs : List Call) (cb : CircuitBreaker) → IsSound cb → IsSound (run cs cb)
unfolding run
run-IsSound_from [] cb h = h
run-IsSound_from (c ∷ cs) cb h = run-IsSound_from cs (step c cb) (step-IsSound c cb h)

-- Whatever the configuration that `New` is given, within the range of its Go types, and whatever
-- calls follow in whatever order and at whatever times, the breaker is sound: its limits are
-- positive, while it is closed its failure count is below the threshold, and the probes let through
-- number at least one and at most the limit while it is half-open, and none otherwise.
pub run-IsSound :
    (cfg : Config) (now : ℕ) (cs : List Call) → FitsInt64 cfg → IsSound (run cs (new cfg now))
run-IsSound cfg now cs h = run-IsSound_from cs (new cfg now) (new-IsSound cfg now h)
