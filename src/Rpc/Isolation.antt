-- ===== src/Rpc/Isolation.antt =====
-- Whose notifications a caller of internal/grpc/server.go reads and makes.
use nimbus_app.Prelude.{
  str_eq_apart, ℕ, ◌%◌, ◌^◌, ◌≡◌, refl, ap, ◌≢◌, ◌⊎◌, inl, inr, String, true, false, not, ◌&&◌,
  none, some, [], arith, str_eq, eq_iff, Bool-cases,
}
use nimbus_app.Db.{Notification, Database, status_pending}
use nimbus_app.Db.Statement.{done, find, notification_not_found, Result, ok, err}
use nimbus_app.Db.Repository.{create_notification, get_notification, row_accepted}
use nimbus_app.Db.Repository.Laws.{creates}
use nimbus_app.Api.{Formats, is_valid_channel}
use nimbus_app.Rpc.{
  Reply, answer, status, plain, not_found, CreateRequest, CreateResponse, create_call, created,
  new_row, get_call, to_proto, NotificationMessage, text_of,
}

abbrev pub no_rows : Database
no_rows = record { notifications = []; dead_letters = []; is_json = λ s. true }

pub get-no_rows : (i : ℕ) → get_notification done i no_rows ≡ err (notification_not_found i)
unfolding get_notification find
get-no_rows i = refl

not_foreign :
    (named tenant : String)
    → (named ≡ "") ⊎ (named ≡ tenant)
    → (not (str_eq named "") && not (str_eq named tenant)) ≡ false
not_foreign named tenant (inl e) = rw ((eq_iff named "").1 e) refl
not_foreign named tenant (inr e) =
    rw ((eq_iff named tenant).1 e)
      (elim (Bool-cases (str_eq named "")) [ inl k ↦ rw k refl | inr k ↦ rw k refl ])

create_ok :
    (now : ℕ) (n : Notification) (db : Database)
    → row_accepted n db ≡ true
    → (create_notification done now n db).0 ≡ ok (record n { created_at = now; updated_at = now })
unfolding create_notification
create_ok now n db h = rw h refl

module _ (F : Formats) where
  -- What the caller sees of a row.
  abbrev pub message_of : Notification → NotificationMessage
  message_of n = record {
    id = F.uuid_string n.id;
    tenant_id = F.uuid_string n.tenant_id;
    user_id = F.uuid_string n.user_id;
    channel = n.channel;
    status = n.status;
    attempt = n.attempt % 2 ^ 32;
    created_at = n.created_at;
    updated_at = n.updated_at;
    error_msg = text_of n.error_message;
  }

  abbrev pub Refuses : Reply NotificationMessage → Type 0
  Refuses r = r ≡ status (plain not_found "notification not found")

  -- The message of that refusal is not the one for an id that no notification has, to which the
  -- repository's error is added: a caller can tell whether another tenant's notification exists.
  pub foreign_row_shows :
      (tenant id : String) (i : ℕ) (n : Notification) (db : Database)
      → tenant ≢ ""
      → F.parse_uuid id ≡ some i
      → get_notification done i db ≡ ok n
      → F.uuid_string n.tenant_id ≢ tenant
      → get_call F done tenant id db ≢ get_call F done tenant id no_rows
  unfolding get_call
  foreign_row_shows tenant id i n db named p h foreign =
      rw
        (
          str_eq_apart tenant "" named,
          p,
          h,
          get-no_rows i,
          str_eq_apart (F.uuid_string n.tenant_id) tenant foreign,
        )
        (λ e. ground arith)

  module _ (now fresh t u : ℕ) (tenant : String) (req : CreateRequest) (db : Database) where
    abbrev pub made : Reply CreateResponse × Database
    made = create_call F done now fresh tenant req db

    abbrev pub row : Notification
    row = record {
      payload = req.payload;
      id = fresh;
      tenant_id = t;
      user_id = u;
      created_at = now;
      updated_at = now;
      next_retry_at = none;
      error_message = none;
      channel = req.channel;
      status = "pending";
      attempt = 0;
    }

    call_created :
        F.parse_uuid tenant ≡ some t
        → tenant ≢ ""
        → (req.tenant_id ≡ "") ⊎ (req.tenant_id ≡ tenant)
        → F.parse_uuid req.user_id ≡ some u
        → is_valid_channel req.channel ≡ true
        → made ≡ created F (create_notification done now (new_row F fresh t u req) db)
    unfolding create_call
    call_created pt named own pu ch =
        rw (str_eq_apart tenant "" named, not_foreign req.tenant_id tenant own, pt, pu, ch) refl

    readable :
        (r : Result Notification × Database)
        → r.0 ≡ ok row
        → get_notification done fresh r.1 ≡ ok row
        → F.uuid_string t ≡ tenant
        → tenant ≢ ""
        → F.parse_uuid (F.uuid_string fresh) ≡ some fresh
        → ((created F r).0
            ≡ answer
                (record { id = F.uuid_string fresh; status = status_pending; created_at = now }))
          × (get_call F done tenant (F.uuid_string fresh) (created F r).1 ≡ answer (message_of row))
    unfolding get_call to_proto
    readable (err e, db') h g ut named pf = ground arith
    readable (ok y, db') h g ut named pf = (
      ap answered h,
      rw (str_eq_apart tenant "" named, pf, g, (eq_iff (F.uuid_string t) tenant).1 ut) refl,
    )
      where
        answered : Result Notification → Reply CreateResponse
        answered x = (created F (x, db')).0

    -- For a tenant whose configured text is the UUID's own, and a request that names no other tenant:
    -- a call that the checks and the table accept, the payload being JSON for the server, is answered with
    -- the new id, and the same tenant then reads the notification by this id, as its own, pending, with
    -- attempt 0 and the request's user and channel.
    pub created_is_readable :
        F.parse_uuid tenant ≡ some t
        → F.uuid_string t ≡ tenant
        → tenant ≢ ""
        → (req.tenant_id ≡ "") ⊎ (req.tenant_id ≡ tenant)
        → F.parse_uuid req.user_id ≡ some u
        → F.parse_uuid (F.uuid_string fresh) ≡ some fresh
        → is_valid_channel req.channel ≡ true
        → row_accepted (new_row F fresh t u req) db ≡ true
        → (made.0
            ≡ answer (record { id = F.uuid_string fresh; status = "pending"; created_at = now }))
          × (get_call F done tenant (F.uuid_string fresh) made.1 ≡ answer (message_of row))
    created_is_readable pt ut named own pu pf ch acc = rw (call_created pt named own pu ch) (
        readable (create_notification done now (new_row F fresh t u req) db)
          (create_ok now (new_row F fresh t u req) db acc)
          (((creates now (new_row F fresh t u req) db).0 acc).1) ut named pf)
