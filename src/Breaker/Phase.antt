-- ===== src/Breaker/Phase.antt =====
-- The breaker that the comment on `State` in internal/circuitbreaker/circuitbreaker.go promises: a
-- machine of three phases, each with the one number that it needs. It is written from that
-- comment and the documentation of `Config`: the recovery timeout counts from the opening. It keeps no
-- statistics. Like the breaker it is not told which request a report is about: the first report while it
-- is half-open counts as that of a probe.
pub mod Refines
use nimbus_app.Prelude.{ℕ, ◌+◌, ◌≡◌, Bool, true, false, List, [], ◌∷◌, ltb, leb, if◌then◌else◌}
use nimbus_app.Prelude.Int.{pos_part}
use nimbus_app.Breaker.{
  State, closed, open_state, half_open, CircuitBreaker, Call, allows, succeeds, fails, resets,
}

-- Failures in a row; the time of the opening; probes let through.
pub data Phase : Type 0 where
  counting tripped probing : ℕ → Phase

pub record Limits : Type 0 where
  pub max_failures : ℕ
  pub timeout : ℕ
  pub max_probes : ℕ

unfoldable pub react_to : Limits → Call → Phase → Phase
react_to l (allows t) (counting n) = counting n
react_to l (allows t) (tripped s) = if leb (s + l.timeout) t then probing 1 else tripped s
react_to l (allows t) (probing k) = if ltb k l.max_probes then probing (k + 1) else probing k
react_to l (succeeds t) (tripped s) = tripped s
react_to l (succeeds t) _ = counting 0
react_to l (fails t) (counting n) =
    if leb l.max_failures (n + 1) then tripped t else counting (n + 1)
react_to l (fails t) (tripped s) = tripped s
react_to l (fails t) (probing k) = tripped t
react_to l (resets t) _ = counting 0

unfoldable pub admits : Limits → ℕ → Phase → Bool
admits l t (counting n) = true
admits l t (tripped s) = leb (s + l.timeout) t
admits l t (probing k) = ltb k l.max_probes

unfoldable pub react_all : Limits → List Call → Phase → Phase
react_all l [] p = p
react_all l (c ∷ cs) p = react_all l cs (react_to l c p)

-- Whether a call is no failure that is reported while the machine is open. Such a report can only come
-- from a request that was let through before the opening.
abbrev pub is_timely : Call → Phase → Bool
is_timely (fails t) (tripped s) = false
is_timely _ _ = true

-- No call of a history is such a report.
abbrev pub AreTimely : Limits → List Call → Phase → Type 0
AreTimely l [] p = Unit
AreTimely l (c ∷ cs) p = (is_timely c p ≡ true) × AreTimely l cs (react_to l c p)

-- What the phase machine sees of a breaker.
abbrev phase_of : State → CircuitBreaker → Phase
phase_of closed cb = counting cb.failure_count
phase_of open_state cb = tripped cb.last_failure_time
phase_of half_open cb = probing cb.half_open_requests

unfoldable pub phase : CircuitBreaker → Phase
phase cb = phase_of cb.state cb

unfoldable pub limits : CircuitBreaker → Limits
limits cb = record {
  max_failures = pos_part cb.config.max_failures;
  timeout = pos_part cb.config.recovery_timeout;
  max_probes = pos_part cb.config.half_open_max_requests;
}
