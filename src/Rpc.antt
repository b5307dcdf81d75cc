-- ===== src/Rpc.antt =====
-- internal/grpc/server.go and interceptor.go: the internal API. The interceptor finds the caller's
-- tenant from the token; the three calls work for this tenant.
pub mod Isolation
pub mod Delivery
pub mod Examples
use Prim.Native.String.{slice, len}
use text.Mathlib.Text.{starts_with}
use nimbus_app.Prelude.{
  ℕ, zero, suc, ◌-◌, ◌%◌, ◌^◌, String, Bool, true, false, not, ◌&&◌, ◌||◌, Option, none, some, List,
  [], ◌∷◌, str_eq, if◌then◌else◌,
}
use nimbus_app.Db.{Notification, Database, status_pending}
use nimbus_app.Db.Statement.{Outcome, DbError, Result, ok, err}
use nimbus_app.Db.Repository.{create_notification, get_notification}
use nimbus_app.Api.{Formats, is_valid_channel}

-- The status codes that the server answers with.
pub data Code : Type 0 where
  unauthenticated permission_denied invalid_argument not_found internal : Code

-- What `%v` adds to a status: nothing, the error of `uuid.Parse`, or the repository's.
pub data Cause : Type 0 where
  no_cause : Cause
  bad_uuid : String → Cause
  db_error : DbError → Cause

-- A gRPC status, of which the client sees the code and the message.
pub record Status : Type 0 where
  pub code : Code
  pub message : String
  pub cause : Cause

abbrev pub plain : Code → String → Status
plain code message = record { code = code; message = message; cause = no_cause }

pub data Reply (A : Type 0) : Type 0 where
  answer : A → Reply A
  status : Status → Reply A

-- `strings.TrimPrefix(s, "Bearer ")`
abbrev pub trim_bearer : String → String
trim_bearer s = if starts_with s "Bearer " then slice s 7 (len s) else s

-- The blanks that a metadata value can have.
abbrev pub is_blank : String → Bool
is_blank c = str_eq c " " || str_eq c "\t"

-- `strings.TrimSpace`, in as many rounds as the text has bytes.
unfoldable pub trim_left : ℕ → String → String
trim_left zero s = s
trim_left (suc n) s =
    let rest = trim_left n (slice s 1 (len s)) in if is_blank (slice s 0 1) then rest else s

unfoldable pub trim_right : ℕ → String → String
trim_right zero s = s
trim_right (suc n) s =
    let rest = trim_right n (slice s 0 (len s - 1)) in
    if is_blank (slice s (len s - 1) (len s)) then rest else s

abbrev pub trim_space : String → String
trim_space s = let t = trim_left (len s) s in trim_right (len t) t

-- `validTokens[token]`
unfoldable pub tenant_of : List (String × String) → String → Reply String
tenant_of [] token = status (plain unauthenticated "invalid token")
tenant_of ((t, tenant) ∷ more) token =
    if str_eq t token then answer tenant else tenant_of more token

-- The metadata's values for "authorization"; `none` where there is no metadata.
unfoldable pub extract_and_validate : List (String × String) → Option (List String) → Reply String
extract_and_validate tokens none = status (plain unauthenticated "missing metadata")
extract_and_validate tokens (some []) =
    status (plain unauthenticated "missing authorization header")
extract_and_validate tokens (some (value ∷ values)) =
    tenant_of tokens (trim_space (trim_bearer value))

-- Both interceptors: `handler` gets the tenant with its context.
abbrev pub intercepted : {A : Type 0} → Reply String → (String → A) → (Status → A) → A
intercepted (answer tenant) handler refuse = handler tenant
intercepted (status c) handler refuse = refuse c

pub record CreateRequest : Type 0 where
  pub tenant_id : String
  pub user_id : String
  pub channel : String
  pub payload : String

pub record CreateResponse : Type 0 where
  pub id : String
  pub status : String
  pub created_at : ℕ

-- `attempt` is the bit pattern of an int32.
pub record NotificationMessage : Type 0 where
  pub id : String
  pub tenant_id : String
  pub user_id : String
  pub channel : String
  pub status : String
  pub attempt : ℕ
  pub created_at : ℕ
  pub updated_at : ℕ
  pub error_msg : String

abbrev pub no_tenant : Status
no_tenant = plain unauthenticated "no authenticated tenant in context"

abbrev pub text_of : Option String → String
text_of none = ""
text_of (some e) = e

module _ (F : Formats) where
  unfoldable pub to_proto : Notification → NotificationMessage
  to_proto n = record {
    id = F.uuid_string n.id;
    tenant_id = F.uuid_string n.tenant_id;
    user_id = F.uuid_string n.user_id;
    channel = n.channel;
    status = n.status;
    attempt = n.attempt % 2 ^ 32;
    created_at = n.created_at;
    updated_at = n.updated_at;
    error_msg = text_of n.error_message;
  }

  abbrev pub new_row : ℕ → ℕ → ℕ → CreateRequest → Notification
  new_row fresh tenant user req = record {
    payload = req.payload;
    id = fresh;
    tenant_id = tenant;
    user_id = user;
    created_at = 0;
    updated_at = 0;
    next_retry_at = none;
    error_message = none;
    channel = req.channel;
    status = status_pending;
    attempt = 0;
  }

  abbrev pub created : Result Notification × Database → Reply CreateResponse × Database
  created (err e, db) = (status (plain internal "failed to create notification"), db)
  created (ok n, db) = (
    answer (record { id = F.uuid_string n.id; status = n.status; created_at = n.created_at }),
    db,
  )

  abbrev pub create_parsed :
      Outcome
      → ℕ
      → ℕ
      → String
      → CreateRequest
      → Database
      → Option ℕ
      → Option ℕ
      → Reply CreateResponse × Database
  create_parsed out now fresh tenant req db none user = (
    status (record {
      code = internal;
      message = "authenticated tenant is not a valid UUID: ";
      cause = bad_uuid tenant;
    }),
    db,
  )
  create_parsed out now fresh tenant req db (some t) none = (
    status (record {
      code = invalid_argument;
      message = "invalid user_id: ";
      cause = bad_uuid req.user_id;
    }),
    db,
  )
  create_parsed out now fresh tenant req db (some t) (some u) =
      if is_valid_channel req.channel
      then created (create_notification out now (new_row fresh t u req) db)
      else (status (plain invalid_argument "channel must be email, sms, or webhook"), db)

  -- `tenant` is the context's value, "" where it has none.
  unfoldable pub create_call :
      Outcome → ℕ → ℕ → String → CreateRequest → Database → Reply CreateResponse × Database
  create_call out now fresh tenant req db =
      if str_eq tenant ""
      then (status no_tenant, db)
      else if not (str_eq req.tenant_id "") && not (str_eq req.tenant_id tenant)
      then (
        status (plain permission_denied "tenant_id in request does not match authenticated tenant"),
        db,
      )
      else create_parsed out now fresh tenant req db (F.parse_uuid tenant)
          (F.parse_uuid req.user_id)

  abbrev pub owned : String → Result Notification → Reply NotificationMessage
  owned tenant (err e) =
      status (record { code = not_found; message = "notification not found: "; cause = db_error e })
  owned tenant (ok n) =
      if str_eq (F.uuid_string n.tenant_id) tenant
      then answer (to_proto n)
      else status (plain not_found "notification not found")

  abbrev pub get_parsed :
      Outcome → String → String → Database → Option ℕ → Reply NotificationMessage
  get_parsed out tenant id db none =
      status (record { code = invalid_argument; message = "invalid id: "; cause = bad_uuid id })
  get_parsed out tenant id db (some i) = owned tenant (get_notification out i db)

  unfoldable pub get_call : Outcome → String → String → Database → Reply NotificationMessage
  get_call out tenant id db =
      if str_eq tenant "" then status no_tenant else get_parsed out tenant id db (F.parse_uuid id)
