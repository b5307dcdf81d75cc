-- ===== src/Breaker/Accounting.antt =====
-- The counters of internal/circuitbreaker/circuitbreaker.go against the history of calls.
use nimbus_app.Prelude.{ℕ, ◌+◌, ◌^◌, ◌%◌, ◌≡◌, refl, List, [], ◌∷◌, arith, if◌then◌else◌}
use nimbus_app.Breaker.{
  Config, CircuitBreaker, Call, allows, succeeds, fails, resets, allow, new, step, run,
}

-- 1 for a call of `Allow` that answers true.
abbrev pub passes : Call → CircuitBreaker → ℕ
passes (allows now) cb = if (allow now cb).1 then 1 else 0
passes _ cb = 0

-- The requests that a history lets through.
unfoldable pub admitted : List Call → CircuitBreaker → ℕ
admitted [] cb = 0
admitted (c ∷ cs) cb = passes c cb + admitted cs (step c cb)

-- How many calls of each kind a history has.
abbrev pub requests : List Call → ℕ
requests [] = 0
requests (allows t ∷ cs) = 1 + requests cs
requests (_ ∷ cs) = requests cs

abbrev pub successes : List Call → ℕ
successes [] = 0
successes (succeeds t ∷ cs) = 1 + successes cs
successes (_ ∷ cs) = successes cs

abbrev pub failures : List Call → ℕ
failures [] = 0
failures (fails t ∷ cs) = 1 + failures cs
failures (_ ∷ cs) = failures cs

-- The four totals of `cb` are `r`, `a` admitted, `s` and `f`, as 64-bit words.
record Totals (cb : CircuitBreaker) (r a s f : ℕ) : Type 0 where
  requests : cb.total_requests ≡ r % 2 ^ 64
  admitted : (cb.total_rejected + a) % 2 ^ 64 ≡ r % 2 ^ 64
  successes : cb.total_successes ≡ s % 2 ^ 64
  failures : cb.total_failures ≡ f % 2 ^ 64

module _ {cb : CircuitBreaker} {r a s f : ℕ} (h : Totals cb r a s f) where
  allows-Totals : (t : ℕ) → Totals (step (allows t) cb) (1 + r) (passes (allows t) cb + a) s f
  unfolding step
  allows-Totals t = ground (arith, h)

  succeeds-Totals : (t : ℕ) → Totals (step (succeeds t) cb) r a (1 + s) f
  unfolding step
  succeeds-Totals t = ground (arith, h)

  fails-Totals : (t : ℕ) → Totals (step (fails t) cb) r a s (1 + f)
  unfolding step
  fails-Totals t = ground (arith, h)

  resets-Totals : (t : ℕ) → Totals (step (resets t) cb) r a s f
  unfolding step
  resets-Totals t = ground (arith, h)

module _ (cb : CircuitBreaker) {r a s f r' a' s' f' : ℕ} where
  regroup : Totals cb r a s f → r ≡ r' → a ≡ a' → s ≡ s' → f ≡ f' → Totals cb r' a' s' f'
  regroup h er ea es ef = omega arith

run-Totals :
    (cs : List Call) {cb : CircuitBreaker} {r a s f : ℕ}
    → Totals cb r a s f
    → Totals (run cs cb) (requests cs + r) (admitted cs cb + a) (successes cs + s) (failures cs + f)
unfolding run admitted
run-Totals [] {cb} h = regroup cb h (omega arith) (omega arith) (omega arith) (omega arith)
run-Totals (allows t ∷ cs) {cb} h =
    regroup _ (run-Totals cs (allows-Totals h t)) (omega arith) (omega arith) refl refl
run-Totals (succeeds t ∷ cs) {cb} h =
    regroup _ (run-Totals cs (succeeds-Totals h t)) refl (omega arith) (omega arith) refl
run-Totals (fails t ∷ cs) {cb} h =
    regroup _ (run-Totals cs (fails-Totals h t)) refl (omega arith) refl (omega arith)
run-Totals (resets t ∷ cs) {cb} h =
    regroup _ (run-Totals cs (resets-Totals h t)) refl (omega arith) refl refl

-- After any history of a new breaker the four totals are, as 64-bit words, the numbers of calls of
-- each kind: every request is counted once, as let through or as rejected, and every success and
-- every failure that was recorded is counted, in whatever state the breaker was.
pub totals_account :
    (cfg : Config) (start : ℕ) (cs : List Call)
    → let cb = run cs (new cfg start) in
      (cb.total_requests ≡ requests cs % 2 ^ 64)
      × ((cb.total_rejected + admitted cs (new cfg start)) % 2 ^ 64 ≡ requests cs % 2 ^ 64)
      × (cb.total_successes ≡ successes cs % 2 ^ 64)
      × (cb.total_failures ≡ failures cs % 2 ^ 64)
unfolding new
totals_account cfg start cs =
    let h : Totals (run cs (new cfg start)) (requests cs + 0) (admitted cs (new cfg start) + 0)
        (successes cs + 0) (failures cs + 0) =
      run-Totals cs (omega arith) in
    omega (arith, h)
