-- ===== src/Breaker.antt =====
-- internal/circuitbreaker/circuitbreaker.go: the three-state circuit breaker. A method that locks
-- the struct and mutates it returns the new record; `now` is what `time.Now` returns inside it, in
-- nanoseconds after Go's zero time. Log lines are left out.
pub mod Invariant
pub mod Phase
pub mod Trip
pub mod Window
pub mod Accounting
mod Examples
use nimbus_app.Prelude.{
  ℕ, ◌+◌, ◌*◌, ◌-◌, ◌≡◌, refl, String, Bool, true, false, Option, none, some, List, [], ◌∷◌, ◌==◌,
  if◌then◌else◌,
}
use nimbus_app.Prelude.Int.{ℤ, pos, leb_ℤ, ltb_ℤ, sub_ℕ, int64, inc64}

pub data State : Type 0 where
  closed open_state half_open : State

-- `State.String`; the `default` branch has no constructor to meet
pub state_string : State → String
state_string closed = "closed"
state_string open_state = "open"
state_string half_open = "half-open"

abbrev pub same_state : State → State → Bool
same_state closed closed = true
same_state open_state open_state = true
same_state half_open half_open = true
same_state _ _ = false

pub record Config : Type 0 where
  pub name : String
  pub max_failures : ℤ
  pub recovery_timeout : ℤ
  pub half_open_max_requests : ℤ

abbrev pub second : ℕ
second = 1_000_000_000

abbrev pub default_config : String → Config
default_config n = record {
  name = n;
  max_failures = pos 5;
  recovery_timeout = pos (30 * second);
  half_open_max_requests = pos 1;
}

-- The int and int64 counters are the bit patterns of their words.
pub record CircuitBreaker : Type 0 where
  pub config : Config
  pub state : State
  pub failure_count : ℕ
  pub success_count : ℕ
  pub last_failure_time : ℕ
  pub last_state_change : ℕ
  pub half_open_requests : ℕ
  pub total_requests : ℕ
  pub total_failures : ℕ
  pub total_successes : ℕ
  pub total_rejected : ℕ

-- `if x <= 0 { x = d }`
abbrev pub or_default : ℤ → ℤ → ℤ
or_default d x = if leb_ℤ x (pos 0) then d else x

unfoldable pub new : Config → ℕ → CircuitBreaker
new cfg now = record {
  config = record cfg {
    max_failures = or_default (pos 5) cfg.max_failures;
    recovery_timeout = or_default (pos (30 * second)) cfg.recovery_timeout;
    half_open_max_requests = or_default (pos 1) cfg.half_open_max_requests;
  };
  state = closed;
  failure_count = 0;
  success_count = 0;
  last_failure_time = 0;
  last_state_change = now;
  half_open_requests = 0;
  total_requests = 0;
  total_failures = 0;
  total_successes = 0;
  total_rejected = 0;
}

transition_to : State → ℕ → CircuitBreaker → CircuitBreaker
transition_to s now cb =
    if same_state cb.state s
    then cb
    else record cb { state = s; last_state_change = now; half_open_requests = 0 }

-- `cb.totalRejected++; return false`
reject : CircuitBreaker → CircuitBreaker × Bool
reject cb = (record cb { total_rejected = inc64 cb.total_rejected }, false)

-- `time.Since(cb.lastFailureTime) >= cb.config.RecoveryTimeout`
abbrev pub recovery_due : ℕ → CircuitBreaker → Bool
recovery_due now cb = leb_ℤ cb.config.recovery_timeout (sub_ℕ now cb.last_failure_time)

-- the `switch` of `Allow`
admit : State → ℕ → CircuitBreaker → CircuitBreaker × Bool
unfolding transition_to reject
admit closed now cb = (cb, true)
admit open_state now cb =
    if recovery_due now cb
    then (record (transition_to half_open now cb) { half_open_requests = 1 }, true)
    else reject cb
admit half_open now cb =
    if ltb_ℤ (int64 cb.half_open_requests) cb.config.half_open_max_requests
    then (record cb { half_open_requests = inc64 cb.half_open_requests }, true)
    else reject cb

unfoldable pub allow : ℕ → CircuitBreaker → CircuitBreaker × Bool
unfolding admit
allow now cb = admit cb.state now (record cb { total_requests = inc64 cb.total_requests })

unfoldable pub record_success : ℕ → CircuitBreaker → CircuitBreaker
unfolding transition_to
record_success now cb =
    let cb' = record cb {
      total_successes = inc64 cb.total_successes;
      success_count = inc64 cb.success_count;
      failure_count = 0;
    } in
    if same_state cb.state half_open then transition_to closed now cb' else cb'

-- the `switch` of `RecordFailure`
react : State → ℕ → CircuitBreaker → CircuitBreaker
unfolding transition_to
react closed now cb =
    if leb_ℤ cb.config.max_failures (int64 cb.failure_count)
    then transition_to open_state now cb
    else cb
react half_open now cb = transition_to open_state now cb
react open_state now cb = cb

unfoldable pub record_failure : ℕ → CircuitBreaker → CircuitBreaker
unfolding react
record_failure now cb = react cb.state now (record cb {
  total_failures = inc64 cb.total_failures;
  failure_count = inc64 cb.failure_count;
  last_failure_time = now;
})

unfoldable pub get_state : CircuitBreaker → State
get_state cb = cb.state

unfoldable pub reset : ℕ → CircuitBreaker → CircuitBreaker
unfolding transition_to
reset now cb = record (transition_to closed now cb) {
  failure_count = 0;
  success_count = 0;
  half_open_requests = 0;
}

pub record Stats : Type 0 where
  pub name : String
  pub state : String
  pub failure_count : ℕ
  pub total_requests : ℕ
  pub total_failures : ℕ
  pub total_successes : ℕ
  pub total_rejected : ℕ
  pub last_failure : String
  pub last_state_change : String

-- `format` is `Time.Format(time.RFC3339)`; the zero time leaves `LastFailure` empty.
unfoldable pub stats : (ℕ → String) → CircuitBreaker → Stats
unfolding state_string
stats format cb = record {
  name = cb.config.name;
  state = state_string cb.state;
  failure_count = cb.failure_count;
  total_requests = cb.total_requests;
  total_failures = cb.total_failures;
  total_successes = cb.total_successes;
  total_rejected = cb.total_rejected;
  last_failure = if cb.last_failure_time == 0 then "" else format cb.last_failure_time;
  last_state_change = format cb.last_state_change;
}

-- A history of calls on one breaker, each with its time.
pub data Call : Type 0 where
  allows succeeds fails resets : ℕ → Call

unfoldable pub step : Call → CircuitBreaker → CircuitBreaker
unfolding allow record_success record_failure reset
step (allows now) cb = (allow now cb).0
step (succeeds now) cb = record_success now cb
step (fails now) cb = record_failure now cb
step (resets now) cb = reset now cb

unfoldable pub run : List Call → CircuitBreaker → CircuitBreaker
run [] cb = cb
run (c ∷ cs) cb = run cs (step c cb)
