-- ===== src/Breaker/Examples.antt =====
-- Runs of the breaker of internal/circuitbreaker/circuitbreaker.go.
use nimbus_app.Prelude.{◌+◌, ◌*◌, ◌%◌, ◌^◌, ◌≡◌, refl, List, [], ◌∷◌, ◌++◌, map, arith}
use nimbus_app.Prelude.Int.{pos}
use nimbus_app.Breaker.{
  closed, open_state, Config, new, second, allow, record_success, record_failure, reset, Call,
  allows, succeeds, fails, step, run,
}
use nimbus_app.Breaker.Invariant.{FitsInt64, IsSound, run-IsSound}
use nimbus_app.Breaker.Phase.{react_to, counting, tripped, react_all, admits, phase, limits}
use nimbus_app.Breaker.Phase.Refines.{run-refines_phase}
use nimbus_app.Breaker.Trip.{trips_exactly}
use nimbus_app.Breaker.Window.{open_fails_fast, probes_limited}
use nimbus_app.Breaker.Accounting.{admitted, totals_account}

-- Two failures open it, for 30 seconds, and then two probes go through.
abbrev two_failures : Config
two_failures = record {
  name = "ses-email";
  max_failures = pos 2;
  recovery_timeout = pos (30 * second);
  half_open_max_requests = pos 2;
}

two_failures-FitsInt64 : FitsInt64 two_failures
two_failures-FitsInt64 = ground arith

abbrev outage : List Call
outage = allows 1 ∷ fails 2 ∷ allows 3 ∷ fails 4 ∷ allows 5 ∷ []

abbrev recovery : List Call
recovery = outage ++ allows (40 * second) ∷ succeeds (41 * second) ∷ allows (42 * second) ∷ []

opens_after_two : (run outage (new two_failures 0)).state ≡ open_state
unfolding run step allow record_failure record_success reset new
opens_after_two = refl

closes_after_probe : (run recovery (new two_failures 0)).state ≡ closed
unfolding run step allow record_failure record_success reset new
closes_after_probe = refl

tripped_at_four : phase (run outage (new two_failures 0)) ≡ tripped 4
unfolding run step allow record_failure record_success reset new phase
tripped_at_four = refl

run-IsSound_example : IsSound (run recovery (new two_failures 0))
run-IsSound_example = run-IsSound two_failures 0 recovery two_failures-FitsInt64

run-refines_phase_example :
    (phase (run recovery (new two_failures 0))
      ≡ react_all (limits (new two_failures 0)) recovery (counting 0))
    × ((allow (43 * second) (run recovery (new two_failures 0))).1
        ≡ admits
            (limits (new two_failures 0))
            (43 * second)
            (react_all (limits (new two_failures 0)) recovery (counting 0)))
unfolding react_to limits new
run-refines_phase_example =
    run-refines_phase two_failures 0 (43 * second) recovery two_failures-FitsInt64
      (refl, (refl, (refl, (refl, (refl, (refl, (refl, (refl, tt))))))))

trips_exactly_example :
    ((run (allows 1 ∷ fails 2 ∷ []) (new two_failures 0)).state ≡ closed)
    × ((run (allows 1 ∷ fails 2 ∷ []) (new two_failures 0)).failure_count ≡ 1)
    × ((record_failure 4 (run (allows 1 ∷ fails 2 ∷ []) (new two_failures 0))).state ≡ open_state)
unfolding new
trips_exactly_example =
    trips_exactly two_failures 0 4 (allows 1 ∷ fails 2 ∷ []) two_failures-FitsInt64 refl

open_fails_fast_example :
    (admitted (allows 6 ∷ succeeds 7 ∷ allows (29 * second) ∷ []) (run outage (new two_failures 0))
      ≡ 0)
    × ((run
          (allows 6 ∷ succeeds 7 ∷ allows (29 * second) ∷ [])
          (run outage (new two_failures 0))).state
        ≡ open_state)
unfolding run step allow record_failure record_success reset new
open_fails_fast_example =
    open_fails_fast (run outage (new two_failures 0))
      (allows 6 ∷ succeeds 7 ∷ allows (29 * second) ∷ []) (ground arith) opens_after_two
      (
        (ground arith, ground arith),
        ((ground arith, ground arith), ((ground arith, ground arith), tt)),
      )

probes_limited_example :
    admitted
      (map allows (40 * second ∷ 41 * second ∷ 42 * second ∷ []))
      (run outage (new two_failures 0))
    ≡ 2
unfolding run step allow record_failure record_success reset new
probes_limited_example =
    probes_limited (run outage (new two_failures 0)) (40 * second) (41 * second ∷ 42 * second ∷ [])
      (ground arith) opens_after_two (ground arith)

totals_account_example :
    ((run recovery (new two_failures 0)).total_requests ≡ 5)
    × (((run recovery (new two_failures 0)).total_rejected + admitted recovery (new two_failures 0))
          % 2 ^ 64
        ≡ 5)
    × ((run recovery (new two_failures 0)).total_successes ≡ 1)
    × ((run recovery (new two_failures 0)).total_failures ≡ 2)
totals_account_example = totals_account two_failures 0 recovery
