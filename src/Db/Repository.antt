-- ===== src/Db/Repository.antt =====
-- internal/db/repository.go: creating, reading, listing and updating notifications. The sorters
-- stand for the server's ORDER BY created_at, DESC and ASC; rows of the same time come in any order, and
-- another one in each query, which has its own sorter.
pub mod Acceptance
pub mod Laws
pub mod Pages
use nimbus_app.Prelude.{
  ℕ, ◌+◌, ◌≤◌, ◌≡◌, String, Bool, true, false, not, ◌&&◌, ◌||◌, Option, none, some, List, [], ◌∷◌,
  ◌++◌, take, drop, keep, leb, ◌==◌, str_eq, if◌then◌else◌,
}
use nimbus_app.Db.{Notification, Database, status_pending, check_channel, check_status}
use nimbus_app.Db.Sorter.{Sorter}
use nimbus_app.Db.Statement.{
  Outcome, Result, ok, err, failed_at, notification_not_found, exec, answer, fits_int4, find,
  update_where, any, one_row,
}

abbrev pub newest_first : Notification → Notification → Bool
newest_first a b = leb b.created_at a.created_at

abbrev pub oldest_first : Notification → Notification → Bool
oldest_first a b = leb a.created_at b.created_at

abbrev pub has_id : ℕ → Notification → Bool
has_id id n = n.id == id

-- What the primary key, JSONB NOT NULL for `payload` (an empty text is nil, stored as NULL),
-- `chk_channel`, `chk_status` and the type of `attempt` let in.
abbrev pub row_accepted : Notification → Database → Bool
row_accepted n db =
    not (any (has_id n.id) db.notifications)
    && not (str_eq n.payload "")
    && db.is_json n.payload
    && check_channel n.channel
    && check_status n.status
    && fits_int4 n.attempt

-- The caller's struct gets `CreatedAt` and `UpdatedAt`; `error_message` is not among the columns.
unfoldable pub create_notification :
    Outcome → ℕ → Notification → Database → Result Notification × Database
create_notification out now n db =
    let stamped = record n { created_at = now; updated_at = now } in
    if row_accepted n db
    then exec out "insert notification"
        (
          ok stamped,
          record db {
            notifications = db.notifications ++ record stamped { error_message = none } ∷ [];
          },
        )
        db
    else (err (failed_at "insert notification"), db)

unfoldable pub get_notification : Outcome → ℕ → Database → Result Notification
get_notification out id db =
    answer out "query notification"
      (one_row (notification_not_found id) (find (has_id id) db.notifications))

-- The trigger `update_notifications_updated_at` of migrations/ stamps every updated row.
unfoldable pub update_notification_status :
    Outcome
    → ℕ
    → ℕ
    → String
    → ℕ
    → Option String
    → Option ℕ
    → Database
    → Result (Unit {0}) × Database
update_notification_status out now id status attempt error_message next_retry_at db =
    if not (fits_int4 attempt)
    then (err (failed_at "update notification status"), db)
    else if not (any (has_id id) db.notifications)
    then exec out "update notification status" (err (notification_not_found id), db) db
    else if not (check_status status)
    then (err (failed_at "update notification status"), db)
    else exec out "update notification status"
        (
          ok tt,
          record db {
            notifications =
                update_where (has_id id)
                  (λ n. record n {
                    status = status;
                    attempt = attempt;
                    error_message = error_message;
                    next_retry_at = next_retry_at;
                    updated_at = now;
                  })
                  db.notifications;
          },
        )
        db

unfoldable pub list_notifications_by_tenant :
    Sorter Notification newest_first → Outcome → ℕ → ℕ → ℕ → Database → Result (List Notification)
list_notifications_by_tenant desc out tenant_id limit offset db = answer out "query notifications" (
    ok (
      take limit (drop offset (desc.sort (keep (λ n. n.tenant_id == tenant_id) db.notifications)))))

-- status = 'pending' AND (next_retry_at IS NULL OR next_retry_at <= NOW())
abbrev pub retry_due : ℕ → Option ℕ → Bool
retry_due now none = true
retry_due now (some t) = leb t now

abbrev pub pending_due : ℕ → Notification → Bool
pending_due now n = str_eq n.status status_pending && retry_due now n.next_retry_at

unfoldable pub get_pending_notifications :
    Sorter Notification oldest_first → Outcome → ℕ → ℕ → Database → Result (List Notification)
get_pending_notifications asc out now limit db =
    answer out "query pending notifications"
      (ok (take limit (asc.sort (keep (pending_due now) db.notifications))))
