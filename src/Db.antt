-- ===== src/Db.antt =====
-- internal/db/models.go, and the tables of migrations/ that internal/db/repository.go reads and
-- writes. A UUID is the number that its 16 bytes spell, a time a number of nanoseconds, a JSON
-- payload its text.
pub mod Sorter
pub mod Rows
pub mod Statement
pub mod Repository
pub mod Claim
pub mod DeadLetter
pub mod Examples
use nimbus_app.Prelude.{ℕ, String, Bool, ◌||◌, Option, List, ◌*◌, str_eq}

pub record Notification : Type 0 where
  pub payload : String
  pub id : ℕ
  pub tenant_id : ℕ
  pub user_id : ℕ
  pub created_at : ℕ
  pub updated_at : ℕ
  pub next_retry_at : Option ℕ
  pub error_message : Option String
  pub channel : String
  pub status : String
  pub attempt : ℕ

abbrev pub status_pending : String
status_pending = "pending"

abbrev pub status_processing : String
status_processing = "processing"

abbrev pub status_sent : String
status_sent = "sent"

abbrev pub status_failed : String
status_failed = "failed"

abbrev pub status_dead_lettered : String
status_dead_lettered = "dead_lettered"

abbrev pub channel_email : String
channel_email = "email"

abbrev pub channel_sms : String
channel_sms = "sms"

abbrev pub channel_webhook : String
channel_webhook = "webhook"

abbrev pub dlq_status_pending : String
dlq_status_pending = "pending"

abbrev pub dlq_status_retried : String
dlq_status_retried = "retried"

abbrev pub dlq_status_discarded : String
dlq_status_discarded = "discarded"

pub record DeadLetterNotification : Type 0 where
  pub payload : String
  pub id : ℕ
  pub original_notification_id : ℕ
  pub tenant_id : ℕ
  pub user_id : ℕ
  pub created_at : ℕ
  pub updated_at : ℕ
  pub retried_notification_id : Option ℕ
  pub channel : String
  pub last_error : String
  pub status : String
  pub attempts : ℕ

-- The two tables, rows in heap order, and which texts the server takes as values of type JSONB.
pub record Database : Type 0 where
  pub notifications : List Notification
  pub dead_letters : List DeadLetterNotification
  pub is_json : String → Bool

-- The constraint `chk_channel` of both tables.
abbrev pub check_channel : String → Bool
check_channel c = str_eq c channel_email || str_eq c channel_sms || str_eq c channel_webhook

-- The constraint `chk_status` of `notifications`, as 002_add_dlq leaves it.
abbrev pub check_status : String → Bool
check_status s =
    str_eq s status_pending
    || str_eq s status_processing
    || str_eq s status_sent
    || str_eq s status_failed
    || str_eq s status_dead_lettered
