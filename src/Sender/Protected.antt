-- ===== src/Sender/Protected.antt =====
-- internal/circuitbreaker/protected_sender.go: a sender behind a circuit breaker. The breaker is an
-- object that others may hold too, so a sender has its address.
use nimbus_app.Prelude.{ℕ, Option, none, some, ◌==◌, if◌then◌else◌}
use nimbus_app.Breaker.{CircuitBreaker, allow, record_success, record_failure}
use nimbus_app.Db.{Notification}
use nimbus_app.Sender.{Providers, World, Sent, Sender, SendError, circuit_open, fails}

module _ (P : Providers) where
  -- A write to the breaker at an address.
  abbrev pub set_breaker : ℕ → CircuitBreaker → World P → World P
  set_breaker a b w = record w { breakers = λ i. if i == a then b else w.breakers i }

  -- The report to the breaker, at the time when the inner sender has returned.
  report : ℕ → Sent P → Option SendError → Sent P
  report a r none = record r {
    world = set_breaker a (record_success (P.clock r.world.env) (r.world.breakers a)) r.world;
  }
  report a r (some e) = record r {
    world = set_breaker a (record_failure (P.clock r.world.env) (r.world.breakers a)) r.world;
  }

  unfoldable pub protected_send : Sender P → ℕ → Notification → World P → Sent P
  unfolding report
  protected_send inner a notif w =
      let (b, admitted) = allow (P.clock w.env) (w.breakers a) in
      let w' = set_breaker a b w in
      let r = inner.send notif w' in
      if admitted then report a r r.error else fails P (circuit_open b.config.name) notif w'

  unfoldable pub protected_sender : Sender P → ℕ → Sender P
  unfolding protected_send
  protected_sender inner a = record {
    send = protected_send inner a;
    supports_channel = inner.supports_channel;
  }
