-- ===== src/Api.antt =====
-- internal/api/handler.go: what a handler is given and what it answers. The repository's database,
-- the key store and the queue are passed from call to call; what each call meets is an argument.
pub mod Create
pub mod Handlers
pub mod Replay
pub mod Durable
pub mod Errors
pub mod Listing
pub mod Release
pub mod Middleware
mod Examples
use nimbus_app.Prelude.{
  ℕ, String, Bool, true, false, ◌||◌, ◌&&◌, Option, none, some, List, [], ◌∷◌, ltb, leb, str_eq,
  if◌then◌else◌,
}
use nimbus_app.Prelude.Int.{ℤ, pos, negsuc}
use nimbus_app.Db.{
  Notification, DeadLetterNotification, Database, channel_email, channel_sms, channel_webhook,
}
use nimbus_app.Redis.{Server}

-- `payload` is the raw JSON text, empty where the field is absent.
pub record NotificationRequest : Type 0 where
  pub tenant_id : String
  pub user_id : String
  pub channel : String
  pub payload : String

pub record ErrorResponse : Type 0 where
  pub kind : String
  pub title : String
  pub status : ℕ
  pub detail : String

-- What a handler encodes: its error, the id of a notification, a row, a page, or named texts.
pub data Body : Type 0 where
  problem : ErrorResponse → Body
  created : String → Body
  notification : Notification → Body
  dead_letter : DeadLetterNotification → Body
  notifications : List Notification → ℕ → ℕ → Body
  dead_letters : List DeadLetterNotification → ℕ → ℕ → Body
  fields : List (String × String) → Body

pub record Response : Type 0 where
  pub code : ℕ
  pub headers : List (String × String)
  pub body : Body

-- A request body as the JSON decoder leaves it: the decoder's error, or the value.
pub data Decoded (A : Type 0) : Type 0 where
  malformed : String → Decoded A
  decoded : A → Decoded A

-- A query parameter as `strconv.Atoi` leaves it.
pub data Param : Type 0 where
  absent : Param
  not_a_number : Param
  number : ℤ → Param

-- The message of internal/sqs/producer.go.
pub record Message : Type 0 where
  pub notification_id : String
  pub tenant_id : String
  pub user_id : String
  pub channel : String
  pub payload : String
  pub attempt : ℕ
  pub enqueued_at : ℕ

-- What is not the program's: the UUIDs' texts, and SHA-256 cut to 16 bytes, in hex.
pub record Formats : Type 0 where
  pub parse_uuid : String → Option ℕ
  pub uuid_string : ℕ → String
  pub digest : String → String
  pub json_valid : String → Bool

module _ (R : Server) where
  pub record State : Type 0 where
    pub db : Database
    pub store : R.Store
    pub queue : List Message

-- `writeError`
abbrev pub write_error : ℕ → String → String → String → Response
write_error status kind title detail = record {
  code = status;
  headers = ("Content-Type", "application/problem+json") ∷ [];
  body = problem (record { kind = kind; title = title; status = status; detail = detail });
}

abbrev pub json_response : ℕ → Body → Response
json_response status body = record {
  code = status;
  headers = ("Content-Type", "application/json") ∷ [];
  body = body;
}

unfoldable pub is_valid_channel : String → Bool
is_valid_channel c = str_eq c channel_email || str_eq c channel_sms || str_eq c channel_webhook

-- `limit`, 20 unless the parameter is from 1 to 100
unfoldable pub page_limit : Param → ℕ
page_limit absent = 20
page_limit not_a_number = 20
page_limit (number (negsuc n)) = 20
page_limit (number (pos n)) = if ltb 0 n && leb n 100 then n else 20

-- `offset`, 0 unless the parameter is not negative
unfoldable pub page_offset : Param → ℕ
page_offset absent = 0
page_offset not_a_number = 0
page_offset (number (negsuc n)) = 0
page_offset (number (pos n)) = n
