-- ===== src/Breaker/Window.antt =====
-- The open and the half-open state of internal/circuitbreaker/circuitbreaker.go: failing fast, and
-- the number of probes.
use nimbus_app.Prelude.{
  ℕ, suc, ◌+◌, ◌-◌, ◌≤◌, ◌<◌, ◌≡◌, refl, List, [], ◌∷◌, map, min, All, length, arith, if◌then◌else◌,
  ltb,
}
use nimbus_app.Prelude.Int.{pos_part}
use nimbus_app.Breaker.{
  open_state, half_open, CircuitBreaker, Call, allows, succeeds, fails, resets, step, run,
}
use nimbus_app.Breaker.Invariant.{IsSound, step-IsSound}
use nimbus_app.Breaker.Accounting.{passes, admitted}

-- A call other than a reset, at a time from `t` on and before `t + w`.
abbrev pub Within : ℕ → ℕ → Call → Type 0
Within t w (allows now) = (t ≤ now) × (now < t + w)
Within t w (succeeds now) = (t ≤ now) × (now < t + w)
Within t w (fails now) = (t ≤ now) × (now < t + w)
Within t w (resets now) = ⊥

-- Open, since a failure in the window from `t` on.
record Tripped (t w : ℕ) (cb : CircuitBreaker) : Type 0 where
  sound : IsSound cb
  state : cb.state ≡ open_state
  since : t ≤ cb.last_failure_time
  timeout : pos_part cb.config.recovery_timeout ≡ w

step-Tripped :
    (t w : ℕ) (c : Call) (cb : CircuitBreaker)
    → Within t w c
    → Tripped t w cb
    → ((step c cb).state ≡ open_state)
      × (t ≤ (step c cb).last_failure_time)
      × (pos_part (step c cb).config.recovery_timeout ≡ w)
      × (passes c cb ≡ 0)
unfolding step
step-Tripped t w (allows now) cb i h = ground arith
step-Tripped t w (succeeds now) cb i h = ground arith
step-Tripped t w (fails now) cb i h = ground arith
step-Tripped t w (resets now) cb i h = absurd i

run-Tripped :
    (t w : ℕ) (cs : List Call) (cb : CircuitBreaker)
    → All (Within t w) cs
    → Tripped t w cb
    → (admitted cs cb ≡ 0) × ((run cs cb).state ≡ open_state)
unfolding run admitted
run-Tripped t w [] cb i h = (refl, h.state)
run-Tripped t w (c ∷ cs) cb i h =
    let (state, since, timeout, none_passed) = step-Tripped t w c cb i.0 h in
    let rest : (admitted cs (step c cb) ≡ 0) × ((run cs (step c cb)).state ≡ open_state) =
      run-Tripped t w cs (step c cb) i.1 (record {
        sound = step-IsSound c cb h.sound;
        state = state;
        since = since;
        timeout = timeout;
      }) in
    (omega arith, rest.1)

-- From the moment it opens a sound breaker fails fast: whatever requests, successes and failures
-- follow before the recovery timeout has passed since the last failure, no request is let through
-- and the breaker stays open. (A reset ends this; it is the operator's override.)
pub open_fails_fast :
    (cb : CircuitBreaker) (cs : List Call)
    → IsSound cb
    → cb.state ≡ open_state
    → All (Within cb.last_failure_time (pos_part cb.config.recovery_timeout)) cs
    → (admitted cs cb ≡ 0) × ((run cs cb).state ≡ open_state)
open_fails_fast cb cs h o i =
    run-Tripped cb.last_failure_time (pos_part cb.config.recovery_timeout) cs cb i
      (record { sound = h; state = o; since = omega arith; timeout = refl })

-- Requests while the breaker is half-open.
probing-step :
    (t : ℕ) (cb : CircuitBreaker)
    → IsSound cb
    → cb.state ≡ half_open
    → let m = pos_part cb.config.half_open_max_requests in
      ((step (allows t) cb).state ≡ half_open)
      × (pos_part (step (allows t) cb).config.half_open_max_requests ≡ m)
      × (passes (allows t) cb ≡ (if ltb cb.half_open_requests m then 1 else 0))
      × ((step (allows t) cb).half_open_requests ≡ (
          if ltb cb.half_open_requests m then cb.half_open_requests + 1 else cb.half_open_requests))
unfolding step
probing-step t cb h o = ground arith

probing-run :
    (ts : List ℕ) (cb : CircuitBreaker)
    → IsSound cb
    → cb.state ≡ half_open
    → admitted (map allows ts) cb
      ≡ min (length ts) (pos_part cb.config.half_open_max_requests - cb.half_open_requests)
unfolding admitted
probing-run [] cb h o = omega arith
probing-run (t ∷ ts) cb h o = ground (
  arith,
  probing-step t cb h o,
  probing-run ts (step (allows t) cb) (step-IsSound (allows t) cb h) (probing-step t cb h o).0,
)

probe-step :
    (t : ℕ) (cb : CircuitBreaker)
    → IsSound cb
    → cb.state ≡ open_state
    → cb.last_failure_time + pos_part cb.config.recovery_timeout ≤ t
    → let m = pos_part cb.config.half_open_max_requests in
      ((step (allows t) cb).state ≡ half_open)
      × (pos_part (step (allows t) cb).config.half_open_max_requests ≡ m)
      × (passes (allows t) cb ≡ 1)
      × ((step (allows t) cb).half_open_requests ≡ 1)
unfolding step
probe-step t cb h o due = ground arith

-- Once the recovery timeout has passed since the last failure, an open breaker lets the next
-- requests through as probes, the first at once, and until a probe reports back no more of them
-- than `HalfOpenMaxRequests`, at whatever times they come.
pub probes_limited :
    (cb : CircuitBreaker) (t : ℕ) (ts : List ℕ)
    → IsSound cb
    → cb.state ≡ open_state
    → cb.last_failure_time + pos_part cb.config.recovery_timeout ≤ t
    → admitted (map allows (t ∷ ts)) cb
      ≡ min (suc (length ts)) (pos_part cb.config.half_open_max_requests)
unfolding admitted
probes_limited cb t ts h o due = omega (
  arith,
  h.max_probes,
  probe-step t cb h o due,
  probing-run ts (step (allows t) cb) (step-IsSound (allows t) cb h) (probe-step t cb h o due).0,
)
