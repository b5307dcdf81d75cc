-- ===== src/Breaker/Phase/Refines.antt =====
-- circuitbreaker.go implements the phase machine as long as no failure is reported while it is open; such
-- a report restarts the wait in the code.
use nimbus_app.Prelude.{ℕ, ◌≡◌, refl, List, [], ◌∷◌, arith, ◌∙◌, true}
use nimbus_app.Breaker.{
  CircuitBreaker, Config, Call, allows, succeeds, fails, resets, allow, new, step, run,
}
use nimbus_app.Breaker.Invariant.{IsSound, FitsInt64, step-IsSound, new-IsSound, run-IsSound}
use nimbus_app.Breaker.Phase.{
  counting, react_to, admits, react_all, phase, limits, is_timely, AreTimely,
}

pub limits-step : (c : Call) (cb : CircuitBreaker) → limits (step c cb) ≡ limits cb
unfolding step limits
limits-step (allows now) cb = ground arith
limits-step (succeeds now) cb = ground arith
limits-step (fails now) cb = ground arith
limits-step (resets now) cb = ground arith

pub phase-step :
    (c : Call) (cb : CircuitBreaker)
    → IsSound cb
    → is_timely c (phase cb) ≡ true
    → phase (step c cb) ≡ react_to (limits cb) c (phase cb)
unfolding step phase react_to limits
phase-step (allows now) cb h timely = ground arith
phase-step (succeeds now) cb h timely = ground arith
phase-step (fails now) cb h timely = ground arith
phase-step (resets now) cb h timely = ground arith

pub allow-eq-admits :
    (now : ℕ) (cb : CircuitBreaker)
    → IsSound cb
    → (allow now cb).1 ≡ admits (limits cb) now (phase cb)
unfolding allow phase admits limits
allow-eq-admits now cb h = ground arith

pub phase-run_of :
    (cs : List Call) (cb : CircuitBreaker)
    → IsSound cb
    → AreTimely (limits cb) cs (phase cb)
    → phase (run cs cb) ≡ react_all (limits cb) cs (phase cb)
unfolding run react_all
phase-run_of [] cb h timely = refl
phase-run_of (c ∷ cs) cb h (now, later) =
    phase-run_of cs (step c cb) (step-IsSound c cb h)
      (rw (limits-step c cb, phase-step c cb h now) later)
    ∙ (λ i. react_all (limits-step c cb i) cs (phase-step c cb h now i))

pub limits-run : (cs : List Call) (cb : CircuitBreaker) → limits (run cs cb) ≡ limits cb
unfolding run
limits-run [] cb = refl
limits-run (c ∷ cs) cb = limits-run cs (step c cb) ∙ limits-step c cb

phase-new : (cfg : Config) (start : ℕ) → phase (new cfg start) ≡ counting 0
unfolding phase new
phase-new cfg start = refl

-- After calls on a new breaker whose configuration is within the range of its Go types, none of them a
-- failure that is reported while the breaker is open, the breaker's phase is the one that the documented
-- machine reaches by the same calls, and the next `Allow` answers what that machine answers in that
-- phase, at every time. The wait of this machine counts from the opening, and the first report while it
-- is half-open counts as that of a probe.
pub run-refines_phase :
    (cfg : Config) (start now : ℕ) (cs : List Call)
    → FitsInt64 cfg
    → AreTimely (limits (new cfg start)) cs (counting 0)
    → let b = new cfg start in
      (phase (run cs b) ≡ react_all (limits b) cs (counting 0))
      × ((allow now (run cs b)).1 ≡ admits (limits b) now (react_all (limits b) cs (counting 0)))
run-refines_phase cfg start now cs h timely =
    let at : phase (run cs (new cfg start)) ≡ react_all (limits (new cfg start)) cs (counting 0) =
      rw (← phase-new cfg start) (
        phase-run_of cs (new cfg start) (new-IsSound cfg start h)
          (rw (phase-new cfg start) timely)) in
    (
      at,
      rw (← at, ← limits-run cs (new cfg start))
          (allow-eq-admits now (run cs (new cfg start)) (run-IsSound cfg start cs h)),
    )
