-- ===== src/Worker/Process.antt =====
-- What `processNotification` of internal/worker/worker.go does with one claimed notification.
use native.Mathlib.Numerals.{add-one}
use nimbus_app.Prelude.{
  ℕ, zero, suc, ◌+◌, ◌*◌, ◌≤◌, ◌≡◌, ◌∙◌, refl, Bool, true, false, Option, none, some, List, [], ◌∷◌,
  arith, Bool-cases, inl, inr, ◌⊎◌,
}
use nimbus_app.Prelude.Int.{ℤ, pos, negsuc, leb_ℤ, ltb_ℤ}
use nimbus_app.Db.{Notification, Database, status_pending, status_sent}
use nimbus_app.Breaker.{second}
use nimbus_app.Db.Sorter.{Sorter}
use nimbus_app.Db.Statement.{Outcome, done, Result, ok, err}
use nimbus_app.Db.Repository.{oldest_first, get_notification}
use nimbus_app.Db.Repository.Laws.{with_status}
use nimbus_app.Db.DeadLetter.{get_dead_letter}
use nimbus_app.Db.DeadLetter.Atomic.{queued, buried}
use nimbus_app.Sender.{Providers, World, Sender, SendError, error_text}
use nimbus_app.Worker.{
  Config, Calls, Tick, minute, retry_delay, calculate_next_retry, process_notification, process_all,
  process_batch, start, run_ticks, new_config, if_zero, settle, claimed_batch, claim,
}

-- The retry time of an attempt that has been made is never a panic, and from one to fifteen minutes
-- away.
pub next_retry_bounds :
    (now k : ℕ)
    → (t : ℕ) × (calculate_next_retry now (pos (k + 1)) ≡ some t)
      × (now + minute ≤ t)
      × (t ≤ now + 15 * minute)
unfolding calculate_next_retry retry_delay
next_retry_bounds now zero = (now + minute, refl, ground arith, ground arith)
next_retry_bounds now (suc zero) = (now + 5 * minute, refl, ground arith, ground arith)
next_retry_bounds now (suc (suc k)) =
    (now + 15 * minute, rw (add-one (suc (suc k))) refl, ground arith, ground arith)

module _ (P : Providers) (sender : Sender P) (cfg : Config) where
  settle_returns :
      (c : Calls) (n : Notification) (w : World P) (db : Database) (e : Option SendError)
      → (r : World P × Database) × (settle P cfg c n w db e ≡ some r)
  unfolding settle
  settle_returns c n w db none = (_, refl)
  settle_returns c n w db (some e) =
      elim (Bool-cases (leb_ℤ cfg.max_retries (pos (n.attempt + 1)))) [
        | inl h ↦ rw h (_, refl)
        | inr h ↦
            let (t, q, l, u) = next_retry_bounds (P.clock w.env) n.attempt in rw h (rw q (_, refl))
      ]

  pub process_returns :
      (c : Calls) (n : Notification) (w : World P) (db : Database)
      → (r : World P × Database) × (process_notification P sender cfg c n w db ≡ some r)
  unfolding process_notification
  process_returns c n w db = let r = sender.send n w in settle_returns c r.notif r.world db r.error

  process_all_returns :
      (calls : ℕ → Calls) (k : ℕ) (ns : List Notification) (w : World P) (db : Database)
      → (r : World P × Database) × (process_all P sender cfg calls k ns w db ≡ some r)
  unfolding process_all
  process_all_returns calls k [] w db = (_, refl)
  process_all_returns calls k (n ∷ ns) w db =
      let ((w', db'), q) = process_returns (calls k) n w db in
      rw q (process_all_returns calls (k + 1) ns w' db')

module _ (P : Providers) (asc : Sorter Notification oldest_first) (sender : Sender P)
    (cfg : Config) where
  batch_returns :
      (locked : ℕ → Bool) (out : Outcome) (now : ℕ) (calls : ℕ → Calls) (w : World P)
      (db : Database)
      → (r : World P × Database) × (process_batch P asc sender cfg locked out now calls w db
          ≡ some r)
  unfolding process_batch
  batch_returns locked out now calls w db = go (claim P asc locked out now cfg.batch_size db)
    where
      go :
          (claims : Result (List Notification) × Database)
          → (r : World P × Database) × (claimed_batch P sender cfg calls w claims ≡ some r)
      go (err e, db') = (_, refl)
      go (ok ns, db') = process_all_returns P sender cfg calls 0 ns w db'

  ticks_return :
      (ticks : List Tick) (w : World P) (db : Database)
      → (r : World P × Database) × (run_ticks P asc sender cfg ticks w db ≡ some r)
  unfolding run_ticks
  ticks_return [] w db = (_, refl)
  ticks_return (t ∷ ts) w db =
      let ((w', db'), q) = batch_returns t.locked t.claimed t.now t.calls w db in
      rw q (ticks_return ts w' db')

-- What `New` does with the poll interval: only an interval below 0 stays one that the ticker refuses.
interval-new_config :
    (cfg : Config) → leb_ℤ (new_config cfg).poll_interval (pos 0) ≡ ltb_ℤ cfg.poll_interval (pos 0)
unfolding new_config
interval-new_config cfg = go cfg.poll_interval
  where
    go : (d : ℤ) → leb_ℤ (if_zero (pos (5 * second)) d) (pos 0) ≡ ltb_ℤ d (pos 0)
    go (pos zero) = refl
    go (pos (suc n)) = ground arith
    go (negsuc n) = ground arith

-- A worker that `New` has made panics exactly if its poll interval is negative, and does so at once,
-- in `time.NewTicker`. Otherwise its loop returns for every sequence of ticks, whatever the sender
-- does, whatever the repository's calls meet and whatever the batch size and the number of retries
-- are: no index into the table of delays is out of range, also where an attempt counter is larger than
-- the table. The attempt counters of the rows and of the notifications that the sender leaves are not
-- negative.
pub never_panics :
    (P : Providers) (asc : Sorter Notification oldest_first) (sender : Sender P) (cfg : Config)
    (ticks : List Tick) (w : World P) (db : Database)
    → ((ltb_ℤ cfg.poll_interval (pos 0) ≡ true)
        × (start P asc sender (new_config cfg) ticks w db ≡ none))
      ⊎ ((ltb_ℤ cfg.poll_interval (pos 0) ≡ false)
          × (r : World P × Database) × (start P asc sender (new_config cfg) ticks w db ≡ some r))
unfolding start
never_panics P asc sender cfg ticks w db =
    let (r, q) = ticks_return P asc sender (new_config cfg) ticks w db in
    elim (Bool-cases (ltb_ℤ cfg.poll_interval (pos 0))) [
      | inl h ↦ inl (h, rw (interval-new_config cfg ∙ h) refl)
      | inr h ↦ inr (h, r, rw (interval-new_config cfg ∙ h) q)
    ]

-- What one notification's turn leaves for the notification `m` (as the sender left it) of row `row`.
abbrev pub Settled :
    (P : Providers)
    → Config
    → Calls
    → World P
    → Notification
    → Notification
    → Option SendError
    → Database
    → Type 0
Settled P cfg c w m row none db =
    get_notification done m.id db ≡ ok (with_status c.now status_sent (m.attempt + 1) none none row)
Settled P cfg c w m row (some e) db =
    ((leb_ℤ cfg.max_retries (pos (m.attempt + 1)) ≡ true)
      × (get_dead_letter done c.fresh db ≡ ok (queued c.fresh c.now m (error_text P e)))
      × (get_notification done m.id db ≡ ok (buried c.now row)))
    ⊎ ((leb_ℤ cfg.max_retries (pos (m.attempt + 1)) ≡ false)
        × (t : ℕ) × (P.clock w.env + minute ≤ t)
        × (t ≤ P.clock w.env + 15 * minute)
        × (get_notification done m.id db
            ≡ ok (
                with_status c.now status_pending (m.attempt + 1) (some (error_text P e)) (some t)
                  row)))
