-- ===== src/Worker.antt =====
-- internal/worker/worker.go: the worker that claims batches and delivers them. What the repository's
-- calls meet (their outcomes, the server's clock, a fresh UUID) is an argument of each step.
pub mod Process
pub mod Untouched
pub mod Lifecycle
mod Examples
use nimbus_app.Prelude.{
  ℕ, zero, suc, ◌+◌, ◌*◌, ◌-◌, String, Bool, true, false, Option, none, some, List, [], ◌∷◌, ltb,
  leb, ◌==◌, min, if◌then◌else◌,
}
use nimbus_app.Prelude.Int.{ℤ, pos, negsuc, leb_ℤ}
use nimbus_app.Breaker.{second}
use nimbus_app.Db.{Notification, DeadLetterNotification, Database, status_pending, status_sent}
use nimbus_app.Db.Sorter.{Sorter}
use nimbus_app.Db.Statement.{Outcome, Result, ok, err, failed_at}
use nimbus_app.Db.Repository.{oldest_first, update_notification_status}
use nimbus_app.Db.Claim.{claim_pending_notifications}
use nimbus_app.Db.DeadLetter.{Steps, move_to_dead_letter}
use nimbus_app.Sender.{Providers, World, Sent, Sender, SendError, error_text}

pub record Config : Type 0 where
  pub poll_interval : ℤ
  pub batch_size : ℤ
  pub max_retries : ℤ

abbrev pub if_zero : ℤ → ℤ → ℤ
if_zero d (pos n) = if n == 0 then d else pos n
if_zero d (negsuc n) = negsuc n

-- the defaults of `New`
unfoldable pub new_config : Config → Config
new_config cfg = record {
  poll_interval = if_zero (pos (5 * second)) cfg.poll_interval;
  batch_size = if_zero (pos 5) cfg.batch_size;
  max_retries = if_zero (pos 3) cfg.max_retries;
}

abbrev pub minute : ℕ
minute = 60 * second

-- `delays[idx]`, where `idx` is `attempt - 1` or the last index. Up to attempt 0 the index is negative,
-- which panics: `none`.
unfoldable pub retry_delay : ℤ → Option ℕ
retry_delay (negsuc n) = none
retry_delay (pos zero) = none
retry_delay (pos (suc zero)) = some (1 * minute)
retry_delay (pos (suc (suc zero))) = some (5 * minute)
retry_delay (pos (suc (suc (suc n)))) = some (15 * minute)

-- `time.Now().Add(delays[idx])`
abbrev pub next_retry : ℕ → Option ℕ → Option ℕ
next_retry now none = none
next_retry now (some d) = some (now + d)

unfoldable pub calculate_next_retry : ℕ → ℤ → Option ℕ
unfolding retry_delay
calculate_next_retry now attempt = next_retry now (retry_delay attempt)

-- What the repository calls for one notification meet.
pub record Calls : Type 0 where
  pub now : ℕ
  pub fresh : ℕ
  pub update : Outcome
  pub move : Steps

module _ (P : Providers) where
  abbrev pub retried_at :
      Calls → Notification → String → World P → Database → Option ℕ → Option (World P × Database)
  retried_at c notif msg w db none = none
  retried_at c notif msg w db (some t) = some (
    w,
    (update_notification_status c.update c.now notif.id status_pending (notif.attempt + 1)
        (some msg) (some t) db).1,
  )

  -- The two branches on `err`; an error of the repository is logged or dropped.
  unfoldable pub settle :
      Config
      → Calls
      → Notification
      → World P
      → Database
      → Option SendError
      → Option (World P × Database)
  settle cfg c notif w db none = some (
    w,
    (update_notification_status c.update c.now notif.id status_sent (notif.attempt + 1) none none
        db).1,
  )
  settle cfg c notif w db (some e) =
      if leb_ℤ cfg.max_retries (pos (notif.attempt + 1))
      then some (w, (move_to_dead_letter c.move c.fresh c.now notif (error_text P e) db).1)
      else retried_at c notif (error_text P e) w db
          (calculate_next_retry (P.clock w.env) (pos (notif.attempt + 1)))

  -- `none` is a panic. The sender may have changed the notification that it was given.
  unfoldable pub process_notification :
      Sender P → Config → Calls → Notification → World P → Database → Option (World P × Database)
  unfolding settle
  process_notification sender cfg c notif w db =
      let r = sender.send notif w in settle cfg c r.notif r.world db r.error

  -- What comes after a step, unless it was a panic.
  abbrev pub unless_panic :
      Option (World P × Database)
      → (World P → Database → Option (World P × Database))
      → Option (World P × Database)
  unless_panic none next = none
  unless_panic (some (w, db)) next = next w db

  -- The loop over the claimed notifications; `calls` goes along with it.
  unfoldable pub process_all :
      Sender P
      → Config
      → (ℕ → Calls)
      → ℕ
      → List Notification
      → World P
      → Database
      → Option (World P × Database)
  process_all sender cfg calls k [] w db = some (w, db)
  process_all sender cfg calls k (n ∷ ns) w db =
      unless_panic (process_notification sender cfg (calls k) n w db)
        (λ w' db'. process_all sender cfg calls (k + 1) ns w' db')

  -- LIMIT refuses a negative number.
  abbrev pub claim :
      Sorter Notification oldest_first
      → (ℕ → Bool)
      → Outcome
      → ℕ
      → ℤ
      → Database
      → Result (List Notification) × Database
  claim asc locked out now (pos limit) db = claim_pending_notifications asc locked out now limit db
  claim asc locked out now (negsuc n) db = (err (failed_at "claim pending notifications"), db)

  abbrev pub claimed_batch :
      Sender P
      → Config
      → (ℕ → Calls)
      → World P
      → Result (List Notification) × Database
      → Option (World P × Database)
  claimed_batch sender cfg calls w (err e, db) = some (w, db)
  claimed_batch sender cfg calls w (ok ns, db) = process_all sender cfg calls 0 ns w db

  unfoldable pub process_batch :
      Sorter Notification oldest_first
      → Sender P
      → Config
      → (ℕ → Bool)
      → Outcome
      → ℕ
      → (ℕ → Calls)
      → World P
      → Database
      → Option (World P × Database)
  process_batch asc sender cfg locked out now calls w db =
      claimed_batch sender cfg calls w (claim asc locked out now cfg.batch_size db)

-- What one tick of `Start` meets.
pub record Tick : Type 0 where
  pub locked : ℕ → Bool
  pub claimed : Outcome
  pub now : ℕ
  pub calls : ℕ → Calls

module _ (P : Providers) where
  -- The loop of `Start`: a batch at every tick until the context is done, which ends the list.
  unfoldable pub run_ticks :
      Sorter Notification oldest_first
      → Sender P
      → Config
      → List Tick
      → World P
      → Database
      → Option (World P × Database)
  run_ticks asc sender cfg [] w db = some (w, db)
  run_ticks asc sender cfg (t ∷ ts) w db =
      unless_panic P (process_batch P asc sender cfg t.locked t.claimed t.now t.calls w db)
        (λ w' db'. run_ticks asc sender cfg ts w' db')

  -- `Start`: `time.NewTicker` panics where the interval is not positive.
  unfoldable pub start :
      Sorter Notification oldest_first
      → Sender P
      → Config
      → List Tick
      → World P
      → Database
      → Option (World P × Database)
  start asc sender cfg ticks w db =
      if leb_ℤ cfg.poll_interval (pos 0) then none else run_ticks asc sender cfg ticks w db
