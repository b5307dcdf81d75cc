-- ===== src/Ai/Compose.antt =====
-- internal/ai/compose.go: a request in natural language, which the model turns into calls of three
-- tools on the repository. `Tooling` is what the tools use of Go's JSON, UUID and time packages.
pub mod Tools
pub mod Rounds
pub mod Grown
pub mod Own
pub mod Foreign
pub mod Handler
mod Examples
use Prim.Native.String.{◌++◌}
use nimbus_app.Prelude.{
  ℕ, zero, suc, String, Bool, true, false, ◌||◌, Option, none, some, List, [], ◌∷◌, ◌++◌ as ◌+++◌,
  map, length, ltb, leb, str_eq, if◌then◌else◌,
}
use nimbus_app.Prelude.Int.{ℤ, pos, negsuc}
use nimbus_app.Prelude.Fallible.{Fallible, value, failed, decimal}
use nimbus_app.Db.{
  Notification, Database, status_pending, channel_email, channel_sms, channel_webhook,
}
use nimbus_app.Db.Sorter.{Sorter}
use nimbus_app.Db.Statement.{Outcome, DbError, Result, ok, err}
use nimbus_app.Db.Repository.{
  newest_first, create_notification, get_notification, list_notifications_by_tenant,
}
use nimbus_app.Api.{Formats, Decoded, malformed, decoded}
use nimbus_app.Ai.{ChatMessage, ToolCall, Client, Model, said, chat_completion}
use nimbus_app.Ai.Compose.Tools.{nimbus_tools, system_prompt}

pub record CreateArgs : Type 0 where
  pub channel : String
  pub to : String
  pub subject : String
  pub body : String

pub record NotificationSummary : Type 0 where
  pub id : String
  pub channel : String
  pub status : String
  pub created : String

-- What the tools and the payloads marshal: a map of texts, a page, a notification's status.
pub data Json : Type 0 where
  texts : List (String × String) → Json
  page : ℕ → List NotificationSummary → Json
  status_json : String → String → String → ℕ → Json

-- `limit_in` is what the decoder, whose error is ignored, leaves in `Limit`; `explain` is a
-- repository error's text, which ends in the driver's.
pub record Tooling : Type 0 where
  pub decode_create : String → Decoded CreateArgs
  pub limit_in : String → ℤ
  pub decode_id : String → Decoded String
  pub marshal : Json → String
  pub uuid_error : String → String
  pub explain : DbError → String
  pub format_time : ℕ → String

-- What the statement of one tool call meets: `fresh` is the new UUID, `now` the database's time.
pub record Meets : Type 0 where
  pub outcome : Outcome
  pub now : ℕ
  pub fresh : ℕ

-- A tool's text and the ids that it made.
abbrev pub ToolResult : Type 0
ToolResult = Fallible (String × List String)

module _ (F : Formats) (T : Tooling) where
  unfoldable pub channel_payload : CreateArgs → Option String
  channel_payload a =
      if str_eq a.channel channel_email
      then some (T.marshal (texts (("to", a.to) ∷ ("subject", a.subject) ∷ ("body", a.body) ∷ [])))
      else if str_eq a.channel channel_sms
      then some (T.marshal (texts (("phone_number", a.to) ∷ ("message", a.body) ∷ [])))
      else if str_eq a.channel channel_webhook
      then some (T.marshal (texts (("url", a.to) ∷ ("body", a.body) ∷ [])))
      else none

  abbrev pub composed_row : ℕ → ℕ → ℕ → String → String → Notification
  composed_row fresh tenant user channel payload = record {
    payload = payload;
    id = fresh;
    tenant_id = tenant;
    user_id = user;
    created_at = 0;
    updated_at = 0;
    next_retry_at = none;
    error_message = none;
    channel = channel;
    status = status_pending;
    attempt = 0;
  }

  abbrev pub created : ℕ → CreateArgs → Result Notification × Database → ToolResult × Database
  created fresh a (err e, db) = (failed ("failed to create notification: " ++ T.explain e), db)
  created fresh a (ok n, db) = (
    value (
      T.marshal (
          texts (
            ("status", "created")
            ∷ ("notification_id", F.uuid_string fresh)
            ∷ ("channel", a.channel)
            ∷ ("to", a.to)
            ∷ [])),
      F.uuid_string fresh ∷ [],
    ),
    db,
  )

  abbrev pub create_with :
      Meets → ℕ → ℕ → CreateArgs → Option String → Database → ToolResult × Database
  create_with m tenant user a none db = (failed ("invalid channel: " ++ a.channel), db)
  create_with m tenant user a (some payload) db =
      created m.fresh a (
        create_notification m.outcome m.now (composed_row m.fresh tenant user a.channel payload) db)

  abbrev pub create_decoded : Meets → ℕ → ℕ → Decoded CreateArgs → Database → ToolResult × Database
  create_decoded m tenant user (malformed e) db = (failed ("invalid arguments: " ++ e), db)
  create_decoded m tenant user (decoded a) db = create_with m tenant user a (channel_payload a) db

  unfoldable pub tool_create_notification :
      Meets → String → ℕ → ℕ → Database → ToolResult × Database
  tool_create_notification m args_json tenant user db =
      create_decoded m tenant user (T.decode_create args_json) db

  abbrev pub summary : Notification → NotificationSummary
  summary n = record {
    id = F.uuid_string n.id;
    channel = n.channel;
    status = n.status;
    created = T.format_time n.created_at;
  }

  abbrev pub tool_limit : ℤ → ℕ
  tool_limit (negsuc n) = 10
  tool_limit (pos n) = if leb n 0 || ltb 50 n then 10 else n

  abbrev pub listed : Result (List Notification) → ToolResult
  listed (err e) = failed ("failed to list notifications: " ++ T.explain e)
  listed (ok ns) = value (T.marshal (page (length ns) (map summary ns)), [])

  unfoldable pub tool_list_notifications :
      Sorter Notification newest_first → Meets → String → ℕ → Database → ToolResult
  tool_list_notifications desc m args_json tenant db =
      listed (
        list_notifications_by_tenant desc m.outcome tenant (tool_limit (T.limit_in args_json)) 0 db)

  abbrev pub status_found : Result Notification → ToolResult
  status_found (err e) = failed ("notification not found: " ++ T.explain e)
  status_found (ok n) =
      value (T.marshal (status_json (F.uuid_string n.id) n.channel n.status n.attempt), [])

  abbrev pub status_parsed : Meets → String → Option ℕ → Database → ToolResult
  status_parsed m text none db = failed ("invalid notification_id: " ++ T.uuid_error text)
  status_parsed m text (some id) db = status_found (get_notification m.outcome id db)

  abbrev pub status_decoded : Meets → Decoded String → Database → ToolResult
  status_decoded m (malformed e) db = failed ("invalid arguments: " ++ e)
  status_decoded m (decoded text) db = status_parsed m text (F.parse_uuid text) db

  unfoldable pub tool_get_notification_status : Meets → String → Database → ToolResult
  tool_get_notification_status m args_json db = status_decoded m (T.decode_id args_json) db

  unfoldable pub execute_tool :
      Sorter Notification newest_first
      → Meets
      → String
      → String
      → ℕ
      → ℕ
      → Database
      → ToolResult × Database
  execute_tool desc m name args_json tenant user db =
      if str_eq name "create_notification"
      then tool_create_notification m args_json tenant user db
      else if str_eq name "list_notifications"
      then (tool_list_notifications desc m args_json tenant db, db)
      else if str_eq name "get_notification_status"
      then (tool_get_notification_status m args_json db, db)
      else (failed ("unknown tool: " ++ name), db)
