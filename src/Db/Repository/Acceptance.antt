-- ===== src/Db/Repository/Acceptance.antt =====
-- Which rows the table `notifications` takes: what the checks on a row come to.
use nimbus_app.Prelude.{◌<◌, ◌^◌, ◌≡◌, ◌⊎◌, ◌≢◌, String, true, false, arith, eq_iff, str_eq_apart}
use nimbus_app.Db.{Notification, Database, check_channel, check_status}
use nimbus_app.Db.Statement.{any}
use nimbus_app.Db.Repository.{has_id, row_accepted}

-- What the table asks of a row: a free id, a payload that is JSON, one of the three channels, one of
-- the five statuses, and an attempt counter in the range of its column.
abbrev pub IsAcceptable : Notification → Database → Type 0
IsAcceptable n db =
    (any (has_id n.id) db.notifications ≡ false)
    × (n.payload ≢ "")
    × (db.is_json n.payload ≡ true)
    × ((n.channel ≡ "email") ⊎ (n.channel ≡ "sms") ⊎ (n.channel ≡ "webhook"))
    × ((n.status ≡ "pending")
        ⊎ (n.status ≡ "processing")
        ⊎ (n.status ≡ "sent")
        ⊎ (n.status ≡ "failed")
        ⊎ (n.status ≡ "dead_lettered"))
    × (n.attempt < 2 ^ 31)

checked_channel :
    (c : String) → check_channel c ≡ true → (c ≡ "email") ⊎ (c ≡ "sms") ⊎ (c ≡ "webhook")
checked_channel c h =
    ground (arith, (eq_iff c "email").0, (eq_iff c "sms").0, (eq_iff c "webhook").0)

channel_checked :
    (c : String) → (c ≡ "email") ⊎ (c ≡ "sms") ⊎ (c ≡ "webhook") → check_channel c ≡ true
channel_checked c h =
    ground (arith, (eq_iff c "email").1, (eq_iff c "sms").1, (eq_iff c "webhook").1)

checked_status :
    (s : String)
    → check_status s ≡ true
    → (s ≡ "pending") ⊎ (s ≡ "processing") ⊎ (s ≡ "sent") ⊎ (s ≡ "failed") ⊎ (s ≡ "dead_lettered")
checked_status s h = ground (
  arith,
  (eq_iff s "pending").0,
  (eq_iff s "processing").0,
  (eq_iff s "sent").0,
  (eq_iff s "failed").0,
  (eq_iff s "dead_lettered").0,
)

status_checked :
    (s : String)
    → (s ≡ "pending") ⊎ (s ≡ "processing") ⊎ (s ≡ "sent") ⊎ (s ≡ "failed") ⊎ (s ≡ "dead_lettered")
    → check_status s ≡ true
status_checked s h = ground (
  arith,
  (eq_iff s "pending").1,
  (eq_iff s "processing").1,
  (eq_iff s "sent").1,
  (eq_iff s "failed").1,
  (eq_iff s "dead_lettered").1,
)

pub row_accepted-IsAcceptable :
    (n : Notification) (db : Database) → row_accepted n db ≡ true → IsAcceptable n db
row_accepted-IsAcceptable n db h = (
  ground arith,
  λ e. ground (arith, (eq_iff n.payload "").1 e),
  ground arith,
  checked_channel n.channel (ground arith),
  checked_status n.status (ground arith),
  ground arith,
)

pub row_accepted_of_IsAcceptable :
    (n : Notification) (db : Database) → IsAcceptable n db → row_accepted n db ≡ true
row_accepted_of_IsAcceptable n db (free, given, json, channel, status, small) =
    rw
      (
        free,
        str_eq_apart n.payload "" given,
        json,
        channel_checked n.channel channel,
        status_checked n.status status,
      )
      (ground arith)
