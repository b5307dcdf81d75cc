-- ===== src/Api/Create.antt =====
-- `CreateNotification` of internal/api/handler.go, with `Enqueue` of internal/sqs/producer.go: the
-- checks, the idempotency key, the row, the stored result and the message, in the code's order.
use Prim.Native.String.{◌++◌}
use nimbus_app.Prelude.{
  ℕ, String, Bool, true, false, not, ◌||◌, ◌&&◌, Option, none, some, List, [], ◌∷◌, ◌++◌ as ◌+++◌,
  str_eq, if◌then◌else◌,
}
use nimbus_app.Db.{Notification, Database, status_pending}
use nimbus_app.Db.Statement.{Outcome, refused, Result, ok, err}
use nimbus_app.Db.Repository.{create_notification}
use nimbus_app.Redis.{
  IdempotencyResult, Server, duplicate_request, redis_failed, invalid_cached_result, Reply, reply,
  failure,
}
use nimbus_app.Redis.Idempotency.{
  idempotency_ttl, idempotency_ttl_exact, check_or_reserve, store, release,
}
use nimbus_app.Api.{
  NotificationRequest, created, Response, Decoded, malformed, decoded, Message, Formats, State,
  write_error, json_response, is_valid_channel,
}

-- Which of the optional services the handler has: neither, the first, or both, by constructor.
pub record Services : Type 0 where
  pub idempotency : Bool
  pub producer : Bool

-- What the calls of one request meet; `now_check` … are the key store's times, `now` the database's.
pub record Meets : Type 0 where
  pub fresh : ℕ
  pub check : Outcome
  pub now_check : ℕ
  pub reserve : Outcome
  pub now_reserve : ℕ
  pub insert : Outcome
  pub now : ℕ
  pub release : Outcome
  pub now_release : ℕ
  pub store : Outcome
  pub now_store : ℕ
  pub unix : ℕ
  pub send : Outcome
  pub now_send : ℕ

abbrev pub new_handler : Services
new_handler = record { idempotency = false; producer = false }

abbrev pub new_handler_with_idempotency : Services
new_handler_with_idempotency = record { idempotency = true; producer = false }

abbrev pub new_handler_with_sqs : Services
new_handler_with_sqs = record { idempotency = true; producer = true }

unfoldable pub generate_content_hash : (String → String) → NotificationRequest → String
generate_content_hash digest req =
    "auto:"
    ++ digest (req.tenant_id ++ "|" ++ req.user_id ++ "|" ++ req.channel ++ "|" ++ req.payload)

pub data Validated : Type 0 where
  rejected : Response → Validated
  accepted : ℕ → ℕ → Validated

abbrev pub bad_request : String → String → Response
bad_request title detail = write_error 400 "invalid_request" title detail

abbrev pub parsed : Option ℕ → Option ℕ → Validated
parsed none user = rejected (bad_request "Invalid tenant_id" "tenant_id must be a valid UUID")
parsed (some t) none = rejected (bad_request "Invalid user_id" "user_id must be a valid UUID")
parsed (some t) (some u) = accepted t u

unfoldable pub validate : Formats → NotificationRequest → Validated
validate F req =
    if str_eq req.tenant_id "" || str_eq req.user_id "" || str_eq req.channel ""
    then rejected
        (bad_request "Missing required fields" "tenant_id, user_id, and channel are required")
    else if not (is_valid_channel req.channel)
    then rejected (bad_request "Invalid channel" "channel must be email, sms, or webhook")
    else if not (str_eq req.payload "") && not (F.json_valid req.payload)
    then rejected (bad_request "Invalid payload" "payload must be valid JSON")
    else parsed (F.parse_uuid req.tenant_id) (F.parse_uuid req.user_id)

-- The literal `notif`; the two stamps are the zero time.
abbrev pub new_notification : ℕ → ℕ → ℕ → NotificationRequest → Notification
new_notification fresh tenant_id user_id req = record {
  payload = req.payload;
  id = fresh;
  tenant_id = tenant_id;
  user_id = user_id;
  created_at = 0;
  updated_at = 0;
  next_retry_at = none;
  error_message = none;
  channel = req.channel;
  status = status_pending;
  attempt = 0;
}

-- `Enqueue`: an error may come after the queue has taken the message.
abbrev pub enqueue : Formats → Outcome → ℕ → Notification → List Message → List Message
enqueue F refused now notif queue = queue
enqueue F _ now notif queue =
    queue
    +++ record {
      notification_id = F.uuid_string notif.id;
      tenant_id = F.uuid_string notif.tenant_id;
      user_id = F.uuid_string notif.user_id;
      channel = notif.channel;
      payload = notif.payload;
      attempt = notif.attempt;
      enqueued_at = now;
    }
      ∷ []

abbrev pub replayed : IdempotencyResult → Response
replayed r = record {
  code = r.status_code;
  headers = ("Content-Type", "application/json") ∷ ("X-Idempotency-Replayed", "true") ∷ [];
  body = created r.notification_id;
}

abbrev pub in_flight : Response
in_flight =
    write_error 409 "duplicate_request" "Request is already being processed"
      "another request with this idempotency key is in progress"

module _ (R : Server) where
  -- What `CheckOrReserve` says of the request: an answer at once, or go on. Any other error is logged.
  abbrev pub guarded : Reply (Option IdempotencyResult) × R.Store → Option Response × R.Store
  guarded (failure duplicate_request, s) = (some in_flight, s)
  guarded (failure (redis_failed what), s) = (none, s)
  guarded (failure invalid_cached_result, s) = (none, s)
  guarded (reply (some r), s) = (some (replayed r), s)
  guarded (reply none, s) = (none, s)

module _ (R : Server) (F : Formats) (services : Services) where
  unfoldable pub key_of : String → NotificationRequest → String
  key_of header req =
      if str_eq header "" && services.idempotency
      then generate_content_hash F.digest req
      else header

  -- `idempotencyKey != "" && h.idempotency != nil`
  abbrev pub uses_key : String → Bool
  uses_key key = not (str_eq key "") && services.idempotency

  abbrev pub guard : Meets → NotificationRequest → String → R.Store → Option Response × R.Store
  guard m req key s =
      if uses_key key
      then guarded R
          (check_or_reserve R m.check m.reserve m.now_check m.now_reserve req.tenant_id key s)
      else (none, s)

  -- `IdempotencyTTLExact` for a key of the client's
  abbrev pub ttl_of : String → ℕ
  ttl_of header = if str_eq header "" then idempotency_ttl else idempotency_ttl_exact

  abbrev pub result_of : Notification → IdempotencyResult
  result_of notif = record {
    notification_id = F.uuid_string notif.id;
    status_code = 201;
    created_at = 0;
  }

  abbrev pub finish :
      Meets
      → String
      → NotificationRequest
      → String
      → State R
      → Result Notification × Database
      → Response × State R
  finish m header req key st (err e, db) = (
    write_error 500 "database_error" "Failed to create notification" "",
    record st {
      db = db;
      store =
          if uses_key key
          then (release R m.release m.now_release req.tenant_id key st.store).1
          else st.store;
    },
  )
  finish m header req key st (ok notif, db) = (
    json_response 201 (created (F.uuid_string notif.id)),
    record {
      db = db;
      store =
          if uses_key key
          then (store R m.store m.now_store m.unix req.tenant_id key (result_of notif)
              (ttl_of header) st.store).1
          else st.store;
      queue = if services.producer then enqueue F m.send m.now_send notif st.queue else st.queue;
    },
  )

  abbrev pub unless_answered :
      Meets
      → String
      → NotificationRequest
      → String
      → Notification
      → State R
      → Option Response × R.Store
      → Response × State R
  unless_answered m header req key notif st (some r, s) = (r, record st { store = s })
  unless_answered m header req key notif st (none, s) =
      finish m header req key (record st { store = s })
        (create_notification m.insert m.now notif st.db)

  abbrev pub unless_rejected :
      Meets → String → NotificationRequest → State R → Validated → Response × State R
  unless_rejected m header req st (rejected r) = (r, st)
  unless_rejected m header req st (accepted t u) =
      let key = key_of header req in
      unless_answered m header req key (new_notification m.fresh t u req) st
        (guard m req key st.store)

  -- `header` is the Idempotency-Key of the request, or "".
  unfoldable pub create_handler :
      Meets → String → Decoded NotificationRequest → State R → Response × State R
  create_handler m header (malformed e) st = (bad_request "Malformed JSON body" e, st)
  create_handler m header (decoded req) st = unless_rejected m header req st (validate F req)
