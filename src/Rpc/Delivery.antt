-- ===== src/Rpc/Delivery.antt =====
-- `StreamDeliveryUpdates` of internal/grpc/server.go: the check of the owner, and the loop that polls
-- the notification every two seconds until it is in a terminal state.
use nimbus_app.Prelude.{
  str_eq_apart, ℕ, ◌%◌, ◌^◌, ◌≤◌, ◌≡◌, refl, inl, inr, String, Bool, true, false, not, ◌||◌, Option,
  none, some, List, [], ◌∷◌, length, arith, str_eq, ◌≢◌, if◌then◌else◌, Bool-cases,
}
use nimbus_app.Db.{Notification, Database}
use nimbus_app.Db.Sorter.{count}
use nimbus_app.Db.Statement.{Outcome, done, Result, ok, err}
use nimbus_app.Db.Repository.{get_notification}
use nimbus_app.Api.{Formats}
use nimbus_app.Rpc.Isolation.{no_rows, get-no_rows}
use nimbus_app.Rpc.{
  db_error, bad_uuid, Status, plain, no_tenant, invalid_argument, not_found, internal, text_of,
}

-- `updated_at` is the time of the poll.
pub record DeliveryUpdate : Type 0 where
  pub notification_id : String
  pub status : String
  pub attempt : ℕ
  pub updated_at : ℕ
  pub error_message : String

-- One tick: what the query meets, the tables then, and whether `stream.Send` succeeds.
pub record Poll : Type 0 where
  pub outcome : Outcome
  pub db : Database
  pub now : ℕ
  pub delivered : Bool

pub data StreamEnd : Type 0 where
  cancelled finished disconnected : StreamEnd
  refused_with : Status → StreamEnd

abbrev pub terminal : String → Bool
terminal s = str_eq s "sent" || str_eq s "failed" || str_eq s "dead_lettered"

module _ (F : Formats) where
  abbrev pub update_of : ℕ → Notification → DeliveryUpdate
  update_of now n = record {
    notification_id = F.uuid_string n.id;
    status = n.status;
    attempt = n.attempt % 2 ^ 32;
    updated_at = now;
    error_message = text_of n.error_message;
  }

  -- `rest` is what the later ticks give.
  abbrev pub polled :
      Poll → Result Notification → List DeliveryUpdate × StreamEnd → List DeliveryUpdate × StreamEnd
  polled p (err e) rest = (
    [],
    refused_with
        (record { code = internal; message = "failed to poll notification: "; cause = db_error e }),
  )
  polled p (ok n) rest =
      if not p.delivered
      then ([], disconnected)
      else if terminal n.status
      then (update_of p.now n ∷ [], finished)
      else (update_of p.now n ∷ rest.0, rest.1)

  -- The list ends when the client goes away.
  unfoldable pub stream_polls : ℕ → List Poll → List DeliveryUpdate × StreamEnd
  stream_polls i [] = ([], cancelled)
  stream_polls i (p ∷ ps) = polled p (get_notification p.outcome i p.db) (stream_polls i ps)

  abbrev pub stream_owned :
      ℕ → String → List Poll → Result Notification → List DeliveryUpdate × StreamEnd
  stream_owned i tenant polls (err e) =
      ([], refused_with (plain not_found "notification not found"))
  stream_owned i tenant polls (ok n) =
      if str_eq (F.uuid_string n.tenant_id) tenant
      then stream_polls i polls
      else ([], refused_with (plain not_found "notification not found"))

  abbrev pub stream_parsed :
      Outcome → String → String → Database → List Poll → Option ℕ → List DeliveryUpdate × StreamEnd
  stream_parsed out tenant id db polls none = (
    [],
    refused_with (record {
      code = invalid_argument;
      message = "invalid notification_id: ";
      cause = bad_uuid id;
    }),
  )
  stream_parsed out tenant id db polls (some i) =
      stream_owned i tenant polls (get_notification out i db)

  unfoldable pub stream_call :
      Outcome → String → String → Database → List Poll → List DeliveryUpdate × StreamEnd
  stream_call out tenant id db polls =
      if str_eq tenant ""
      then ([], refused_with no_tenant)
      else stream_parsed out tenant id db polls (F.parse_uuid id)

abbrev pub is_finished : StreamEnd → Bool
is_finished finished = true
is_finished _ = false

module _ (F : Formats) where
  -- At most one update for each tick; a terminal one exactly where the stream has finished, and then one.
  abbrev pub IsStreamOf : List Poll → List DeliveryUpdate × StreamEnd → Type 0
  IsStreamOf polls r =
      (length r.0 ≤ length polls)
      × (count (λ (u : DeliveryUpdate). terminal u.status) r.0 ≡ (if is_finished r.1 then 1 else 0))

  polls-IsStreamOf : (i : ℕ) (polls : List Poll) → IsStreamOf polls (stream_polls F i polls)
  unfolding stream_polls
  polls-IsStreamOf i [] = (ground arith, refl)
  polls-IsStreamOf i (p ∷ ps) = go (get_notification p.outcome i p.db) (polls-IsStreamOf i ps)
    where
      go :
          (r : Result Notification)
          → IsStreamOf ps (stream_polls F i ps)
          → IsStreamOf (p ∷ ps) (polled F p r (stream_polls F i ps))
      go (err e) h = (ground arith, refl)
      go (ok n) h = ground arith

  owned-IsStreamOf :
      (i : ℕ) (tenant : String) (polls : List Poll) (r : Result Notification)
      → IsStreamOf polls (stream_owned F i tenant polls r)
  owned-IsStreamOf i tenant polls (err e) = (ground arith, refl)
  owned-IsStreamOf i tenant polls (ok n) =
      elim (Bool-cases (str_eq (F.uuid_string n.tenant_id) tenant)) [
        | inl e ↦ rw e (polls-IsStreamOf i polls)
        | inr e ↦ rw e (ground arith, refl)
      ]

  parsed-IsStreamOf :
      (out : Outcome) (tenant id : String) (db : Database) (polls : List Poll) (parsed : Option ℕ)
      → IsStreamOf polls (stream_parsed F out tenant id db polls parsed)
  parsed-IsStreamOf out tenant id db polls none = (ground arith, refl)
  parsed-IsStreamOf out tenant id db polls (some i) =
      owned-IsStreamOf i tenant polls (get_notification out i db)

  -- Whoever calls and whatever the polls meet: a stream sends at most one update for each tick, and
  -- it has sent an update with a terminal status exactly if it ended as finished, and then just one.
  pub streams_until_terminal :
      (out : Outcome) (tenant id : String) (db : Database) (polls : List Poll)
      → IsStreamOf polls (stream_call F out tenant id db polls)
  unfolding stream_call
  streams_until_terminal out tenant id db polls = elim (Bool-cases (str_eq tenant "")) [
    | inl e ↦ rw e (ground arith, refl)
    | inr e ↦ rw e (parsed-IsStreamOf out tenant id db polls (F.parse_uuid id))
  ]

  -- For a notification of another tenant a stream sends nothing, and ends as it does where there are no
  -- notifications at all, whatever the polls would meet.
  pub no_foreign_stream :
      (tenant id : String) (i : ℕ) (n : Notification) (db : Database) (polls : List Poll)
      → F.parse_uuid id ≡ some i
      → get_notification done i db ≡ ok n
      → F.uuid_string n.tenant_id ≢ tenant
      → ((stream_call F done tenant id db polls).0 ≡ [])
        × (stream_call F done tenant id db polls ≡ stream_call F done tenant id no_rows polls)
  unfolding stream_call
  no_foreign_stream tenant id i n db polls p h foreign = elim (Bool-cases (str_eq tenant "")) [
    | inl e ↦ rw e (refl, refl)
    | inr e ↦
        rw (e, p, h, get-no_rows i, str_eq_apart (F.uuid_string n.tenant_id) tenant foreign)
          (refl, refl)
  ]
