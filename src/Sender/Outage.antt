-- ===== src/Sender/Outage.antt =====
-- What the breaker of internal/circuitbreaker/protected_sender.go does for a service that is down,
-- and that the channels that cmd/gateway/main.go wires do not share their breakers.
use nimbus_app.Prelude.{
  ℕ, ◌+◌, ◌-◌, ◌≤◌, ◌<◌, ◌≡◌, refl, ◌⊎◌, inl, inr, Bool-cases, ==_refl, some, List, [], ◌∷◌, arith,
  if◌then◌else◌,
}
use nimbus_app.Prelude.Int.{pos_part}
use nimbus_app.Breaker.{
  closed, open_state, CircuitBreaker, Config, new, allow, record_failure, step, allows,
  fails as fails_at,
}
use nimbus_app.Breaker.Invariant.{IsSound, FitsInt64, new-IsSound, step-IsSound}
use nimbus_app.Db.{Notification}
use nimbus_app.Sender.{Providers, World, Sender, SendError}
use nimbus_app.Sender.Protected.{protected_send, set_breaker}

-- The sends that a breaker may still let through in a window that opens with it, and the invariant.
abbrev budget : CircuitBreaker → ℕ
budget cb = elim cb.state [ closed ↦ pos_part cb.config.max_failures - cb.failure_count | _ ↦ 0 ]

record InWindow (t limit wait : ℕ) (cb : CircuitBreaker) : Type 0 where
  sound : IsSound cb
  state : (cb.state ≡ closed) ⊎ ((cb.state ≡ open_state) × (t ≤ cb.last_failure_time))
  threshold : pos_part cb.config.max_failures ≡ limit
  timeout : pos_part cb.config.recovery_timeout ≡ wait

-- A send that fails, at times within the window: what it does to the breaker.
failing_send :
    (t limit wait now later : ℕ) (cb : CircuitBreaker)
    → InWindow t limit wait cb
    → t ≤ now
    → now < t + wait
    → t ≤ later
    → let (b, admitted) = allow now cb in
      let b' = if admitted then record_failure later b else b in
      ((b'.state ≡ closed) ⊎ ((b'.state ≡ open_state) × (t ≤ b'.last_failure_time)))
      × (pos_part b'.config.max_failures ≡ limit)
      × (pos_part b'.config.recovery_timeout ≡ wait)
      × ((if admitted then 1 else 0) + budget b' ≤ budget cb)
unfolding allow record_failure
failing_send t limit wait now later cb h a b c = ground arith

-- Both calls keep the breaker sound.
after-IsSound :
    (now later : ℕ) (cb : CircuitBreaker)
    → IsSound cb
    → let (b, admitted) = allow now cb in IsSound (if admitted then record_failure later b else b)
after-IsSound now later cb h = elim (Bool-cases (allow now cb).1) [
  | inl e ↦ rw e (fails-IsSound (allow now cb).0 (allows-IsSound cb h))
  | inr e ↦ rw e (allows-IsSound cb h)
]
  where
    allows-IsSound : (b : CircuitBreaker) → IsSound b → IsSound (allow now b).0
    allows-IsSound b s = unfold step in step-IsSound (allows now) b s

    fails-IsSound : (b : CircuitBreaker) → IsSound b → IsSound (record_failure later b)
    fails-IsSound b s = unfold step in step-IsSound (fails_at later) b s

module _ (P : Providers) (inner : Sender P) (a : ℕ) where
  -- Notifications sent one after the other through the breaker at `a`.
  abbrev pub send_next : Notification → World P → World P
  send_next notif w = (protected_send P inner a notif w).world

  unfoldable pub send_all : List Notification → World P → World P
  send_all [] w = w
  send_all (n ∷ ns) w = send_all ns (send_next n w)

  -- The service is down: every send of the inner sender is at most one request that the service
  -- receives, by its own count `received`, and fails, and leaves the breaker to its wrapper.
  pub record IsDown (received : P.Env → ℕ) : Type 0 where
    pub error :
        (n : Notification) (w : World P) → (e : SendError) × ((inner.send n w).error ≡ some e)
    pub apart : (n : Notification) (w : World P) → (inner.send n w).world.breakers a ≡ w.breakers a
    pub counted :
        (n : Notification) (w : World P) → received (inner.send n w).world.env ≤ received w.env + 1

  -- The clock, at each send and when the inner sender returns, is in the window from `t` on.
  abbrev pub InTime : ℕ → ℕ → List Notification → World P → Type 0
  InTime t wait [] w = Unit
  InTime t wait (n ∷ ns) w =
      ((t ≤ P.clock w.env) × (P.clock w.env < t + wait) × (t ≤ P.clock (send_next n w).env))
      × InTime t wait ns (send_next n w)

  -- The breaker after a send to a service that is down.
  abbrev after : Notification → World P → CircuitBreaker
  after n w =
      let (b, admitted) = allow (P.clock w.env) (w.breakers a) in
      if admitted then record_failure (P.clock (send_next n w).env) b else b

  module _ (received : P.Env → ℕ) (down : IsDown received) where
    breaker-send_next : (n : Notification) (w : World P) → (send_next n w).breakers a ≡ after n w
    unfolding protected_send
    breaker-send_next n w =
        let w' : World P = set_breaker P a (allow (P.clock w.env) (w.breakers a)).0 w in
        ground (arith, ==_refl a, down.error n w', down.apart n w')

    -- Only an admitted send reaches the service.
    received-send_next :
        (n : Notification) (w : World P)
        → received (send_next n w).env
          ≤ received w.env + (if (allow (P.clock w.env) (w.breakers a)).1 then 1 else 0)
    unfolding protected_send
    received-send_next n w =
        let w' : World P = set_breaker P a (allow (P.clock w.env) (w.breakers a)).0 w in
        ground (arith, down.error n w', down.counted n w')

    received-le-budget :
        (t limit wait : ℕ) (ns : List Notification) (w : World P)
        → InWindow t limit wait (w.breakers a)
        → InTime t wait ns w
        → received (send_all ns w).env ≤ received w.env + budget (w.breakers a)
    unfolding send_all
    received-le-budget t limit wait [] w h i = omega arith
    received-le-budget t limit wait (n ∷ ns) w h i =
        let (state, threshold, timeout, spent) =
          failing_send t limit wait (P.clock w.env) (P.clock (send_next n w).env) (w.breakers a) h
            i.0.0 i.0.1 i.0.2 in
        let next : InWindow t limit wait (after n w) = record {
          sound =
              after-IsSound (P.clock w.env) (P.clock (send_next n w).env) (w.breakers a) h.sound;
          state = state;
          threshold = threshold;
          timeout = timeout;
        } in
        let rest : received (send_all ns (send_next n w)).env
            ≤ received (send_next n w).env + budget (after n w) =
          rw (← breaker-send_next n w) (
            received-le-budget t limit wait ns (send_next n w) (rw (breaker-send_next n w) next)
              i.1) in
        omega (arith, rest, spent, received-send_next n w)

budget-new :
    (cfg : Config) (start : ℕ)
    → budget (new cfg start) ≤ pos_part (new cfg start).config.max_failures
unfolding new
budget-new cfg start = omega arith

-- A service that is down receives at most `MaxFailures` requests within one recovery timeout, by the
-- service's own count: from a new breaker on, whatever notifications are sent through it one after the
-- other while the clock stays in a window that long.
pub outage_is_contained :
    (P : Providers) (inner : Sender P) (a : ℕ) (received : P.Env → ℕ) (cfg : Config) (start t : ℕ)
    (ns : List Notification) (w : World P)
    → FitsInt64 cfg
    → IsDown P inner a received
    → w.breakers a ≡ new cfg start
    → InTime P inner a t (pos_part (new cfg start).config.recovery_timeout) ns w
    → received (send_all P inner a ns w).env
      ≤ received w.env + pos_part (new cfg start).config.max_failures
outage_is_contained P inner a received cfg start t ns w fits down fresh i =
    let bound : received (send_all P inner a ns w).env ≤ received w.env + budget (w.breakers a) =
      received-le-budget P inner a received down t (pos_part (new cfg start).config.max_failures)
        (pos_part (new cfg start).config.recovery_timeout) ns w
        (rw fresh (record {
          sound = new-IsSound cfg start fits;
          state = unfold new in inl refl;
          threshold = refl;
          timeout = refl;
        }))
        i in
    let fresh_bound : received (send_all P inner a ns w).env
        ≤ received w.env + budget (new cfg start) =
      rw fresh at bound in
    omega (arith, fresh_bound, budget-new cfg start)
