-- ===== src/Db/DeadLetter/Retry.antt =====
-- `RetryDeadLetter` and `DiscardDeadLetter` of internal/db/repository.go.

use nimbus_app.Prelude.{
  ℕ, ◌≡◌, refl, ◌≢◌, inl, inr, true, false, none, some, ap, List, [], ◌∷◌, arith, ==_refl,
  Bool-cases,
}
use nimbus_app.Db.{
  Notification, DeadLetterNotification, Database, dlq_status_pending, dlq_status_retried,
}
use nimbus_app.Db.Statement.{
  Outcome, done, refused, lost, DbError, failed_at, Result, ok, err, already_processed,
  not_found_or_processed, find, any, update_where,
}
use nimbus_app.Db.Repository.{has_id, get_notification, row_accepted}
use nimbus_app.Db.Rows.{find-append, find-update_self, any_of_find, any-append}
use nimbus_app.Db.DeadLetter.{
  Steps, has_dlq_id, get_dead_letter, retry_of, mark_retried, retried, retry_transaction,
  retry_check, retry_dead_letter, discardable, discard_dead_letter,
}

abbrev pub all_done : Steps
all_done = record { begin = true; insert = true; update = true; commit = done }

any_of_get :
    (db : Database) (i : ℕ) (n : Notification)
    → get_notification done i db ≡ ok n
    → any (has_id i) db.notifications ≡ true
unfolding get_notification
any_of_get db i n h = any_of_find (has_id i) db.notifications {x = n} (ground arith)

-- What `GetDeadLetter` reads.
found-get_dead_letter :
    (id : ℕ) (db : Database) (d : DeadLetterNotification)
    → get_dead_letter done id db ≡ ok d
    → find (has_dlq_id id) db.dead_letters ≡ some d
unfolding get_dead_letter
found-get_dead_letter id db d h = ground arith

-- What an item becomes: a notification under the id `fresh`.
abbrev pub requeued : ℕ → ℕ → DeadLetterNotification → Notification
requeued fresh now d = record {
  payload = d.payload;
  id = fresh;
  tenant_id = d.tenant_id;
  user_id = d.user_id;
  created_at = now;
  updated_at = now;
  next_retry_at = none;
  error_message = none;
  channel = d.channel;
  status = "pending";
  attempt = 0;
}

-- The item after that.
abbrev pub spent : ℕ → ℕ → DeadLetterNotification → DeadLetterNotification
spent fresh now d = record d {
  status = "retried";
  retried_notification_id = some fresh;
  updated_at = now;
}

module _ (fresh now id : ℕ) (d : DeadLetterNotification) (db : Database) where
  commit :
      row_accepted (retry_of fresh now d) db ≡ true
      → retry_transaction all_done fresh now d id db
        ≡ (ok (retry_of fresh now d), retried fresh now d id db)
  unfolding retry_transaction
  commit a = rw a

  get-retried :
      get_dead_letter done id db ≡ ok d
      → get_dead_letter done id (retried fresh now d id db) ≡ ok (mark_retried fresh now d)
  unfolding get_dead_letter
  get-retried h = ground (
    arith,
    found-get_dead_letter id db d h,
    find-update_self (has_dlq_id id) (mark_retried fresh now) db.dead_letters (λ x. refl),
  )

  new-retried :
      row_accepted (retry_of fresh now d) db ≡ true
      → get_notification done fresh (retried fresh now d id db) ≡ ok (retry_of fresh now d)
  unfolding get_notification
  new-retried a =
      ground
        (arith, ==_refl fresh, find-append (has_id fresh) db.notifications (retry_of fresh now d))

  -- another retry's notification does not hide this one
  old-retried :
      (i : ℕ) (n : Notification)
      → get_notification done i db ≡ ok n
      → get_notification done i (retried fresh now d id db) ≡ ok n
  unfolding get_notification
  old-retried i n h =
      ground
        (arith, any_of_get db i n h, find-append (has_id i) db.notifications (retry_of fresh now d))

  accepted-retried :
      (fresh' later : ℕ)
      → row_accepted (retry_of fresh' later d) db ≡ true
      → fresh ≢ fresh'
      → row_accepted (retry_of fresh' later d) (retried fresh now d id db) ≡ true
  accepted-retried fresh' later a apart =
      ground (arith, any-append (has_id fresh') db.notifications (retry_of fresh now d))

marked_not_discardable :
    (fresh now id : ℕ) (rows : List DeadLetterNotification)
    → any (discardable id) (update_where (has_dlq_id id) (mark_retried fresh now) rows) ≡ false
unfolding any update_where
marked_not_discardable fresh now id [] = refl
marked_not_discardable fresh now id (d ∷ rows) = elim (Bool-cases (has_dlq_id id d)) [
  | inl e ↦ rw e (ground (arith, marked_not_discardable fresh now id rows))
  | inr e ↦ rw e (ground (arith, marked_not_discardable fresh now id rows))
]

module _ (fresh now id : ℕ) (d : DeadLetterNotification) (db : Database) where
  discard-retried :
      (later : ℕ)
      → discard_dead_letter done later id (retried fresh now d id db)
        ≡ (err not_found_or_processed, retried fresh now d id db)
  unfolding discard_dead_letter
  discard-retried later = rw (marked_not_discardable fresh now id db.dead_letters)

  retry-retried :
      (steps : Steps) (fresh' later : ℕ)
      → get_dead_letter done id db ≡ ok d
      → retry_dead_letter done steps fresh' later id (retried fresh now d id db)
        ≡ (err (already_processed dlq_status_retried), retried fresh now d id db)
  unfolding retry_dead_letter
  retry-retried steps fresh' later h = rw (get-retried fresh now id d db h)

  retry_fails :
      (steps : Steps) (out : Outcome) (fresh' later : ℕ)
      → get_dead_letter done id db ≡ ok d
      → (e : DbError) × (retry_dead_letter out steps fresh' later id (retried fresh now d id db)
          ≡ (err e, retried fresh now d id db))
  unfolding retry_dead_letter get_dead_letter
  retry_fails steps done fresh' later h = (_, retry-retried steps fresh' later h)
  retry_fails steps refused fresh' later h = (_, refl)
  retry_fails steps lost fresh' later h = (_, refl)

  discard_fails :
      (out : Outcome) (later : ℕ)
      → (e : DbError) × (discard_dead_letter out later id (retried fresh now d id db)
          ≡ (err e, retried fresh now d id db))
  unfolding discard_dead_letter
  discard_fails done later = (_, discard-retried later)
  discard_fails refused later = (_, refl)
  discard_fails lost later = (
    _,
    ap (λ (r : Result (Unit {0}) × Database). (err (failed_at "discard dead letter"), r.1))
        (discard-retried later),
  )

  checked :
      get_dead_letter done id db ≡ ok d
      → d.status ≡ dlq_status_pending
      → row_accepted (retry_of fresh now d) db ≡ true
      → retry_dead_letter done all_done fresh now id db
        ≡ (ok (retry_of fresh now d), retried fresh now d id db)
  unfolding retry_dead_letter
  checked h pending accepted = rw h (rw pending (rw accepted))

-- A retry of a pending item that commits creates one pending notification under the new id, with
-- attempt 0 and the item's payload, channel, tenant and user, and marks the item as retried as that
-- notification. On the tables that it leaves every further retry and every discard of the item fails
-- and changes nothing, whatever its statements meet; where they are answered, the error says that the
-- item is processed.
pub retries_once :
    (fresh now id : ℕ) (d : DeadLetterNotification) (db : Database)
    → get_dead_letter done id db ≡ ok d
    → d.status ≡ dlq_status_pending
    → row_accepted (requeued fresh now d) db ≡ true
    → let (result, db') = retry_dead_letter done all_done fresh now id db in
      (result ≡ ok (requeued fresh now d))
      × (get_notification done fresh db' ≡ ok (requeued fresh now d))
      × (get_dead_letter done id db' ≡ ok (spent fresh now d))
      × ((out : Outcome) (steps : Steps) (fresh' later : ℕ)
          → ((e : DbError) × (retry_dead_letter out steps fresh' later id db' ≡ (err e, db')))
            × ((e : DbError) × (discard_dead_letter out later id db' ≡ (err e, db'))))
      × ((steps : Steps) (fresh' later : ℕ)
          → (retry_dead_letter done steps fresh' later id db'
              ≡ (err (already_processed "retried"), db'))
            × (discard_dead_letter done later id db' ≡ (err not_found_or_processed, db')))
retries_once fresh now id d db h pending accepted =
    rw (checked fresh now id d db h pending accepted) (
      refl,
      new-retried fresh now id d db accepted,
      get-retried fresh now id d db h,
      λ out steps fresh' later. (
        retry_fails fresh now id d db steps out fresh' later h,
        discard_fails fresh now id d db out later,
      ),
      λ steps fresh' later. (
        retry-retried fresh now id d db steps fresh' later h,
        discard-retried fresh now id d db later,
      ),
    )

-- The check and the transaction of `RetryDeadLetter` are apart: if two callers have both passed the
-- check on one pending item, and their new ids differ and are free, both transactions commit, and
-- one dead letter has become two pending notifications, each with attempt 0 and the item's payload,
-- channel, tenant and user.
pub race_retries_twice :
    (fresh fresh' now later id : ℕ) (d : DeadLetterNotification) (db : Database)
    → retry_check done id db ≡ ok d
    → row_accepted (requeued fresh now d) db ≡ true
    → row_accepted (requeued fresh' later d) db ≡ true
    → fresh ≢ fresh'
    → let (first, db') = retry_transaction all_done fresh now d id db in
      let (second, db'') = retry_transaction all_done fresh' later d id db' in
      (first ≡ ok (requeued fresh now d))
      × (second ≡ ok (requeued fresh' later d))
      × (get_notification done fresh db'' ≡ ok (requeued fresh now d))
      × (get_notification done fresh' db'' ≡ ok (requeued fresh' later d))
race_retries_twice fresh fresh' now later id d db h a a' apart =
    let again : row_accepted (requeued fresh' later d) (retried fresh now d id db) ≡ true =
      accepted-retried fresh now id d db fresh' later a' apart in
    rw (commit fresh now id d db a) (
      rw (commit fresh' later id d (retried fresh now d id db) again) (
        refl,
        refl,
        old-retried fresh' later id d (retried fresh now d id db) fresh (requeued fresh now d)
            (new-retried fresh now id d db a),
        new-retried fresh' later id d (retried fresh now d id db) again,
      ))
