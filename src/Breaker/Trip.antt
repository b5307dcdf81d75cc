-- ===== src/Breaker/Trip.antt =====
-- When the breaker of internal/circuitbreaker/circuitbreaker.go opens.
use nimbus_app.Prelude.{
  ℕ, ◌+◌, ◌≡◌, refl, ap, ◌∙◌, Bool, true, false, ◌&&◌, List, [], ◌∷◌, arith, leb, ltb,
  if◌then◌else◌,
}
use nimbus_app.Prelude.Int.{pos_part}
use nimbus_app.Breaker.{
  closed, open_state, Config, CircuitBreaker, Call, allows, succeeds, fails, resets, new,
  record_failure, run,
}
use nimbus_app.Breaker.Invariant.{IsSound, FitsInt64, run-IsSound}
use nimbus_app.Breaker.Phase.{Limits, AreTimely, counting, react_to, react_all, phase, limits}
use nimbus_app.Breaker.Phase.Refines.{run-refines_phase, limits-run}

-- Failures since the last success or reset, with `n` before the history starts.
abbrev pub streak : ℕ → List Call → ℕ
streak n [] = n
streak n (allows t ∷ cs) = streak n cs
streak n (succeeds t ∷ cs) = streak 0 cs
streak n (fails t ∷ cs) = streak (n + 1) cs
streak n (resets t ∷ cs) = streak 0 cs

-- No prefix of the history has `limit` failures in a row.
abbrev pub stays_below : ℕ → ℕ → List Call → Bool
stays_below limit n [] = true
stays_below limit n (allows t ∷ cs) = stays_below limit n cs
stays_below limit n (succeeds t ∷ cs) = stays_below limit 0 cs
stays_below limit n (fails t ∷ cs) = ltb (n + 1) limit && stays_below limit (n + 1) cs
stays_below limit n (resets t ∷ cs) = stays_below limit 0 cs

counting-react_all :
    (l : Limits) (n : ℕ) (cs : List Call)
    → stays_below l.max_failures n cs ≡ true
    → react_all l cs (counting n) ≡ counting (streak n cs)
unfolding react_all react_to
counting-react_all l n [] h = refl
counting-react_all l n (allows t ∷ cs) h = counting-react_all l n cs h
counting-react_all l n (succeeds t ∷ cs) h = counting-react_all l 0 cs h
counting-react_all l n (fails t ∷ cs) h = ground (arith, counting-react_all l (n + 1) cs)
counting-react_all l n (resets t ∷ cs) h = counting-react_all l 0 cs h

-- Such a history reports no failure to an open machine.
stays_below-AreTimely :
    (l : Limits) (n : ℕ) (cs : List Call)
    → stays_below l.max_failures n cs ≡ true
    → AreTimely l cs (counting n)
unfolding react_to
stays_below-AreTimely l n [] h = tt
stays_below-AreTimely l n (allows t ∷ cs) h = (refl, stays_below-AreTimely l n cs h)
stays_below-AreTimely l n (succeeds t ∷ cs) h = (refl, stays_below-AreTimely l 0 cs h)
stays_below-AreTimely l n (fails t ∷ cs) h =
    let below : leb l.max_failures (n + 1) ≡ false = ground arith in
    (refl, rw below (stays_below-AreTimely l (n + 1) cs (ground arith)))
stays_below-AreTimely l n (resets t ∷ cs) h = (refl, stays_below-AreTimely l 0 cs h)

closed_of_counting :
    (cb : CircuitBreaker) (n : ℕ)
    → phase cb ≡ counting n
    → (cb.state ≡ closed) × (cb.failure_count ≡ n)
unfolding phase
closed_of_counting cb n h = ground arith

record_failure_closed :
    (cb : CircuitBreaker) (t n limit : ℕ)
    → IsSound cb
    → cb.state ≡ closed
    → cb.failure_count ≡ n
    → pos_part cb.config.max_failures ≡ limit
    → (record_failure t cb).state ≡ (if leb limit (n + 1) then open_state else closed)
unfolding record_failure
record_failure_closed cb t n limit s h e f = ground arith

-- As long as no prefix of a new breaker's history has `max_failures` failures in a row, not
-- interrupted by a success or a reset, the breaker is closed and counts exactly those failures; and
-- one more failure opens it exactly if that makes `max_failures` in a row.
pub trips_exactly :
    (cfg : Config) (start t : ℕ) (cs : List Call)
    → FitsInt64 cfg
    → let limit = pos_part (new cfg start).config.max_failures in
      stays_below limit 0 cs ≡ true
      → let cb = run cs (new cfg start) in
        (cb.state ≡ closed)
        × (cb.failure_count ≡ streak 0 cs)
        × ((record_failure t cb).state
            ≡ (if leb limit (streak 0 cs + 1) then open_state else closed))
unfolding limits new
trips_exactly cfg start t cs h quiet = (
  now.0,
  now.1,
  record_failure_closed (run cs (new cfg start)) t (streak 0 cs) _ (run-IsSound cfg start cs h)
      now.0 now.1 (ap (λ (l : Limits). l.max_failures) (limits-run cs (new cfg start))),
)
  where
    now :
        ((run cs (new cfg start)).state ≡ closed)
        × ((run cs (new cfg start)).failure_count ≡ streak 0 cs)
    now = closed_of_counting (run cs (new cfg start)) (streak 0 cs) (
        (run-refines_phase cfg start t cs h
          (stays_below-AreTimely (limits (new cfg start)) 0 cs quiet)).0
        ∙ counting-react_all (limits (new cfg start)) 0 cs quiet)
