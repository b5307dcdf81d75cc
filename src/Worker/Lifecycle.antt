-- ===== src/Worker/Lifecycle.antt =====
-- What the worker of internal/worker/worker.go does to a notification that is finished: 'sent',
-- 'failed' or 'dead_lettered'.
use nimbus_app.Prelude.{ℕ, ◌+◌, ◌≡◌, refl, ◌∙◌, sym, ap, ◌≢◌, false, Option, some, List, [], ◌∷◌}
use nimbus_app.Prelude.Int.{ℤ, pos, negsuc}
use nimbus_app.Db.{Notification, Database}
use nimbus_app.Db.Sorter.{Sorter}
use nimbus_app.Db.Statement.{Result, ok, err, any}
use nimbus_app.Db.Repository.{oldest_first}
use nimbus_app.Db.Claim.{is_in, ids, claim_pending_notifications, claimed_ids}
use nimbus_app.Sender.{Providers, World, Sent, Sender}
use nimbus_app.Worker.{
  Config, Calls, Tick, settle, process_notification, process_all, claim, claimed_batch,
  process_batch, run_ticks,
}
use nimbus_app.Worker.Untouched.{
  unfinished, rows_of, head_apart, tail_apart, claim-other, settle-other, not_claimed,
}

-- A sender that does not change the id of what it sends, and one that does the same as it for every
-- notification but `i`.
abbrev pub KeepsId : (P : Providers) → Sender P → Type 0
KeepsId P s = (n : Notification) (w : World P) → (s.send n w).notif.id ≡ n.id

abbrev pub SameBut : (P : Providers) → ℕ → Sender P → Sender P → Type 0
SameBut P i s s' = (n : Notification) (w : World P) → n.id ≢ i → s.send n w ≡ s'.send n w

module _ (i : ℕ) (P : Providers) (sender sender' : Sender P) (cfg : Config)
    (keeps : KeepsId P sender) (same : SameBut P i sender sender') where
  -- What a step that is no turn of `i` does, with either sender.
  abbrev Spares : Database → Option (World P × Database) → Option (World P × Database) → Type 0
  Spares db a b =
      (r : World P × Database) × (a ≡ some r) × (b ≡ some r) × (rows_of i r.1 ≡ rows_of i db)

  process-other :
      (c : Calls) (n : Notification) (w : World P) (db : Database)
      → n.id ≢ i
      → Spares db
          (process_notification P sender cfg c n w db)
          (process_notification P sender' cfg c n w db)
  unfolding process_notification
  process-other c n w db apart =
      let sent : Sent P = sender.send n w in
      let (r, q, k) =
        settle-other i P cfg c sent.notif sent.world db (λ e. apart (sym (keeps n w) ∙ e))
          sent.error in
      (
        r,
        q,
        ap (λ (x : Sent P). settle P cfg c x.notif x.world db x.error) (sym (same n w apart)) ∙ q,
        k,
      )

  process_all-other :
      (calls : ℕ → Calls) (k : ℕ) (ns : List Notification) (w : World P) (db : Database)
      → is_in (ids ns) i ≡ false
      → Spares db
          (process_all P sender cfg calls k ns w db)
          (process_all P sender' cfg calls k ns w db)
  unfolding process_all is_in
  process_all-other calls k [] w db h = (_, refl, refl, refl)
  process_all-other calls k (n ∷ ns) w db h =
      let ((w', db'), a, b, e) = process-other (calls k) n w db (head_apart i n ns h) in
      let (r, a', b', e') = process_all-other calls (k + 1) ns w' db' (tail_apart i n ns h) in
      rw (a, b) (r, a', b', e' ∙ e)

  claimed-other :
      (calls : ℕ → Calls) (w : World P) (db : Database) (r : Result (List Notification) × Database)
      → is_in (claimed_ids r.0) i ≡ false
      → rows_of i r.1 ≡ rows_of i db
      → Spares db (claimed_batch P sender cfg calls w r) (claimed_batch P sender' cfg calls w r)
  claimed-other calls w db (err e, db') h k = (_, refl, refl, k)
  claimed-other calls w db (ok ns, db') h k =
      let (r, a, b, e) = process_all-other calls 0 ns w db' h in (r, a, b, e ∙ k)

  module _ (asc : Sorter Notification oldest_first) where
    batch-other :
        (t : Tick) (limit : ℤ) (w : World P) (db : Database)
        → any unfinished (rows_of i db) ≡ false
        → let r = claim P asc t.locked t.claimed t.now limit db in
          Spares db
            (claimed_batch P sender cfg t.calls w r)
            (claimed_batch P sender' cfg t.calls w r)
    unfolding is_in
    batch-other t (pos limit) w db h =
        claimed-other t.calls w db
          (claim_pending_notifications asc t.locked t.claimed t.now limit db)
          (not_claimed i asc t.locked t.claimed t.now db h limit)
          (claim-other i asc t.locked t.claimed t.now db h limit)
    batch-other t (negsuc limit) w db h = (_, refl, refl, refl)

    -- A notification all of whose rows are finished stays finished: through every sequence of ticks,
    -- whatever the repository's calls meet, its rows do not change at all; and it is not sent again,
    -- since a sender that does anything else with this notification leads to the same result.
    pub finished_stays :
        (ticks : List Tick) (w : World P) (db : Database)
        → any unfinished (rows_of i db) ≡ false
        → (r : World P × Database) × (run_ticks P asc sender cfg ticks w db ≡ some r)
          × (run_ticks P asc sender' cfg ticks w db ≡ some r)
          × (rows_of i r.1 ≡ rows_of i db)
    unfolding run_ticks process_batch
    finished_stays [] w db h = (_, refl, refl, refl)
    finished_stays (t ∷ ts) w db h =
        let ((w', db'), a, b, e) = batch-other t cfg.batch_size w db h in
        let (r, a', b', e') = finished_stays ts w' db' (ap (any unfinished) e ∙ h) in
        rw (a, b) (r, a', b', e' ∙ e)
