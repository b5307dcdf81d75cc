-- ===== src/Db/DeadLetter.antt =====
-- internal/db/repository.go: the dead letter queue. The functions that open a transaction get the
-- fate of each of its steps as an argument; a step that fails rolls everything back.
pub mod Atomic
pub mod Retry
use nimbus_app.Prelude.{
  ℕ, ◌≡◌, String, Bool, true, false, not, ◌&&◌, Option, none, some, List, [], ◌∷◌, ◌++◌, take, drop,
  keep, leb, ◌==◌, str_eq, if◌then◌else◌,
}
use nimbus_app.Db.{
  Notification, DeadLetterNotification, Database, status_pending, status_dead_lettered,
  dlq_status_pending, dlq_status_retried, dlq_status_discarded, check_channel, check_status,
}
use nimbus_app.Db.Sorter.{Sorter}
use nimbus_app.Db.Statement.{
  Outcome, DbError, Result, ok, err, failed_at, dead_letter_not_found, already_processed,
  not_found_or_processed, exec, answer, fits_int4, find, update_where, any, one_row,
}
use nimbus_app.Db.Repository.{has_id, row_accepted}

-- Which steps of a transaction the server carries out, and what becomes of its commit.
pub record Steps : Type 0 where
  pub begin : Bool
  pub insert : Bool
  pub update : Bool
  pub commit : Outcome

abbrev pub has_dlq_id : ℕ → DeadLetterNotification → Bool
has_dlq_id id d = d.id == id

-- What the primary key, JSONB NOT NULL for `payload`, `chk_dlq_channel`, `chk_dlq_status` and the type of `attempts` let in.
abbrev pub dead_letter_accepted : DeadLetterNotification → Database → Bool
dead_letter_accepted d db =
    not (any (has_dlq_id d.id) db.dead_letters)
    && not (str_eq d.payload "")
    && db.is_json d.payload
    && check_channel d.channel
    && fits_int4 d.attempts

-- The literal `dlq`: `fresh` is what `uuid.New` returns.
abbrev pub dead_letter_of : ℕ → ℕ → Notification → String → DeadLetterNotification
dead_letter_of fresh now notif last_error = record {
  payload = notif.payload;
  id = fresh;
  original_notification_id = notif.id;
  tenant_id = notif.tenant_id;
  user_id = notif.user_id;
  created_at = now;
  updated_at = now;
  retried_notification_id = none;
  channel = notif.channel;
  last_error = last_error;
  status = dlq_status_pending;
  attempts = notif.attempt;
}

-- What the transaction writes.
abbrev pub dead_lettered : ℕ → Notification → DeadLetterNotification → Database → Database
dead_lettered now notif dlq db = record db {
  notifications =
      update_where (has_id notif.id)
        (λ n. record n { status = status_dead_lettered; updated_at = now }) db.notifications;
  dead_letters = db.dead_letters ++ dlq ∷ [];
}

unfoldable pub move_to_dead_letter :
    Steps → ℕ → ℕ → Notification → String → Database → Result DeadLetterNotification × Database
move_to_dead_letter steps fresh now notif last_error db =
    let dlq = dead_letter_of fresh now notif last_error in
    if not steps.begin
    then (err (failed_at "begin transaction"), db)
    else if not (steps.insert && dead_letter_accepted dlq db)
    then (err (failed_at "insert dead letter"), db)
    else if not steps.update
    then (err (failed_at "update notification status"), db)
    else exec steps.commit "commit transaction" (ok dlq, dead_lettered now notif dlq db) db

abbrev pub newest_dlq_first : DeadLetterNotification → DeadLetterNotification → Bool
newest_dlq_first a b = leb b.created_at a.created_at

unfoldable pub list_dead_letter_by_tenant :
    Sorter DeadLetterNotification newest_dlq_first
    → Outcome
    → ℕ
    → ℕ
    → ℕ
    → Database
    → Result (List DeadLetterNotification)
list_dead_letter_by_tenant desc out tenant_id limit offset db =
    answer out "query dead letter notifications" (
      ok (
        take limit
          (drop offset (desc.sort (keep (λ d. d.tenant_id == tenant_id) db.dead_letters)))))

unfoldable pub get_dead_letter : Outcome → ℕ → Database → Result DeadLetterNotification
get_dead_letter out id db =
    answer out "query dead letter"
      (one_row (dead_letter_not_found id) (find (has_dlq_id id) db.dead_letters))

-- The literal `newNotif`, as the INSERT stores it.
abbrev pub retry_of : ℕ → ℕ → DeadLetterNotification → Notification
retry_of fresh now dlq = record {
  payload = dlq.payload;
  id = fresh;
  tenant_id = dlq.tenant_id;
  user_id = dlq.user_id;
  created_at = now;
  updated_at = now;
  next_retry_at = none;
  error_message = none;
  channel = dlq.channel;
  status = status_pending;
  attempt = 0;
}

-- SET status = 'retried', retried_notification_id = …, with the trigger `dlq_updated_at`
abbrev pub mark_retried : ℕ → ℕ → DeadLetterNotification → DeadLetterNotification
mark_retried fresh now d = record d {
  status = dlq_status_retried;
  retried_notification_id = some fresh;
  updated_at = now;
}

-- What the transaction writes.
abbrev pub retried : ℕ → ℕ → DeadLetterNotification → ℕ → Database → Database
retried fresh now dlq dlq_id db = record db {
  notifications = db.notifications ++ retry_of fresh now dlq ∷ [];
  dead_letters = update_where (has_dlq_id dlq_id) (mark_retried fresh now) db.dead_letters;
}

-- The transaction of `RetryDeadLetter`, with `dlq` as it was read before.
unfoldable pub retry_transaction :
    Steps → ℕ → ℕ → DeadLetterNotification → ℕ → Database → Result Notification × Database
retry_transaction steps fresh now dlq dlq_id db =
    let notif = retry_of fresh now dlq in
    if not steps.begin
    then (err (failed_at "begin transaction"), db)
    else if not (steps.insert && row_accepted notif db)
    then (err (failed_at "insert retry notification"), db)
    else if not steps.update
    then (err (failed_at "update dead letter"), db)
    else exec steps.commit "commit transaction" (ok notif, retried fresh now dlq dlq_id db) db

abbrev pub check_pending : Result DeadLetterNotification → Result DeadLetterNotification
check_pending (err e) = err e
check_pending (ok dlq) =
    if str_eq dlq.status dlq_status_pending then ok dlq else err (already_processed dlq.status)

-- The read and the check that come before the transaction.
unfoldable pub retry_check : Outcome → ℕ → Database → Result DeadLetterNotification
retry_check out dlq_id db = check_pending (get_dead_letter out dlq_id db)

abbrev pub if_pending :
    Result DeadLetterNotification
    → (DeadLetterNotification → Result Notification × Database)
    → Database
    → Result Notification × Database
if_pending (err e) go db = (err e, db)
if_pending (ok dlq) go db = go dlq

-- Nothing happens between the check and the transaction here.
unfoldable pub retry_dead_letter :
    Outcome → Steps → ℕ → ℕ → ℕ → Database → Result Notification × Database
unfolding retry_check retry_transaction
retry_dead_letter out steps fresh now dlq_id db =
    if_pending (retry_check out dlq_id db) (λ dlq. retry_transaction steps fresh now dlq dlq_id db)
      db

-- WHERE id = $2 AND status = 'pending'
abbrev pub discardable : ℕ → DeadLetterNotification → Bool
discardable id d = has_dlq_id id d && str_eq d.status dlq_status_pending

unfoldable pub discard_dead_letter : Outcome → ℕ → ℕ → Database → Result (Unit {0}) × Database
discard_dead_letter out now dlq_id db =
    exec out "discard dead letter"
      (if any (discardable dlq_id) db.dead_letters
        then (
          ok tt,
          record db {
            dead_letters =
                update_where (discardable dlq_id)
                  (λ d. record d { status = dlq_status_discarded; updated_at = now })
                  db.dead_letters;
          },
        )
        else (err not_found_or_processed, db))
      db
