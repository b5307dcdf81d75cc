-- ===== src/Api/Handlers.antt =====
-- The other handlers of internal/api/handler.go: reading, listing, changing a status, and the dead
-- letter queue.
use nimbus_app.Prelude.{
  ℕ, String, Bool, ◌||◌, Option, none, some, List, [], ◌∷◌, str_eq, if◌then◌else◌,
}
use nimbus_app.Prelude.Int.{ℤ, pos, negsuc}
use nimbus_app.Db.{
  Notification, DeadLetterNotification, Database, status_pending, status_processing, status_sent,
  status_failed,
}
use nimbus_app.Db.Sorter.{Sorter}
use nimbus_app.Db.Statement.{Outcome, Result, ok, err}
use nimbus_app.Db.Repository.{
  newest_first, get_notification, list_notifications_by_tenant, update_notification_status,
}
use nimbus_app.Db.DeadLetter.{
  Steps, newest_dlq_first, get_dead_letter, list_dead_letter_by_tenant, retry_dead_letter,
  discard_dead_letter,
}
use nimbus_app.Api.{
  notification, dead_letter, notifications, dead_letters, fields, Response, Decoded, malformed,
  decoded, Param, Formats, write_error, json_response, page_limit, page_offset,
}
use nimbus_app.Api.Create.{bad_request}

abbrev pub database_error : String → Response
database_error title = write_error 500 "database_error" title ""

abbrev pub not_found : String → Response
not_found title = write_error 404 "not_found" title ""

module _ (F : Formats) where
  abbrev pub got : Result Notification → Response
  got (err e) = not_found "Notification not found"
  got (ok n) = json_response 200 (notification n)

  abbrev pub get_parsed : Outcome → Database → Option ℕ → Response
  get_parsed out db none = bad_request "Invalid notification ID" "ID must be a valid UUID"
  get_parsed out db (some id) = got (get_notification out id db)

  unfoldable pub get_handler : Outcome → String → Database → Response
  get_handler out id db = get_parsed out db (F.parse_uuid id)

  abbrev pub listed : ℕ → ℕ → Result (List Notification) → Response
  listed limit offset (err e) = database_error "Failed to list notifications"
  listed limit offset (ok ns) = json_response 200 (notifications ns limit offset)

  abbrev pub list_parsed :
      Sorter Notification newest_first → Outcome → Param → Param → Database → Option ℕ → Response
  list_parsed desc out limit offset db none =
      bad_request "Invalid tenant_id" "tenant_id must be a valid UUID"
  list_parsed desc out limit offset db (some t) =
      listed (page_limit limit) (page_offset offset)
        (list_notifications_by_tenant desc out t (page_limit limit) (page_offset offset) db)

  unfoldable pub list_handler :
      Sorter Notification newest_first → Outcome → String → Param → Param → Database → Response
  list_handler desc out tenant_id limit offset db =
      if str_eq tenant_id ""
      then bad_request "Missing tenant_id" "tenant_id query parameter is required"
      else list_parsed desc out limit offset db (F.parse_uuid tenant_id)

-- The body of a PATCH.
pub record StatusRequest : Type 0 where
  pub error : Option String
  pub status : String
  pub attempt : ℤ

-- `validStatuses`
abbrev pub valid_status : String → Bool
valid_status s =
    str_eq s status_pending
    || str_eq s status_processing
    || str_eq s status_sent
    || str_eq s status_failed

module _ (F : Formats) where
  abbrev pub status_set : String → String → Result (Unit {0}) × Database → Response × Database
  status_set id status (err e, db) = (database_error "Failed to update notification", db)
  status_set id status (ok u, db) =
      (json_response 200 (fields (("id", id) ∷ ("status", status) ∷ [])), db)

  abbrev pub status_checked :
      Outcome → ℕ → ℕ → String → String → ℤ → Option String → Database → Response × Database
  status_checked out now i id status (negsuc n) error db =
      (bad_request "Invalid attempt" "attempt must be >= 0", db)
  status_checked out now i id status (pos n) error db =
      status_set id status (update_notification_status out now i status n error none db)

  abbrev pub status_decoded :
      Outcome → ℕ → ℕ → String → Decoded StatusRequest → Database → Response × Database
  status_decoded out now i id (malformed e) db = (bad_request "Malformed JSON body" e, db)
  status_decoded out now i id (decoded req) db =
      if valid_status req.status
      then status_checked out now i id req.status req.attempt req.error db
      else (
        bad_request "Invalid status" "status must be one of: pending, processing, sent, failed",
        db,
      )

  abbrev pub status_parsed :
      Outcome → ℕ → String → Decoded StatusRequest → Database → Option ℕ → Response × Database
  status_parsed out now id body db none =
      (bad_request "Invalid notification ID" "ID must be a valid UUID", db)
  status_parsed out now id body db (some i) = status_decoded out now i id body db

  unfoldable pub status_handler :
      Outcome → ℕ → String → Decoded StatusRequest → Database → Response × Database
  status_handler out now id body db = status_parsed out now id body db (F.parse_uuid id)

  abbrev pub invalid_dlq_id : Response
  invalid_dlq_id = bad_request "Invalid DLQ ID" "ID must be a valid UUID"

  abbrev pub dlq_listed : ℕ → ℕ → Result (List DeadLetterNotification) → Response
  dlq_listed limit offset (err e) = database_error "Failed to list dead letter queue"
  dlq_listed limit offset (ok ds) = json_response 200 (dead_letters ds limit offset)

  abbrev pub dlq_list_parsed :
      Sorter DeadLetterNotification newest_dlq_first
      → Outcome
      → Param
      → Param
      → Database
      → Option ℕ
      → Response
  dlq_list_parsed desc out limit offset db none =
      bad_request "Invalid tenant_id" "tenant_id must be a valid UUID"
  dlq_list_parsed desc out limit offset db (some t) =
      dlq_listed (page_limit limit) (page_offset offset)
        (list_dead_letter_by_tenant desc out t (page_limit limit) (page_offset offset) db)

  unfoldable pub dlq_list_handler :
      Sorter DeadLetterNotification newest_dlq_first
      → Outcome
      → String
      → Param
      → Param
      → Database
      → Response
  dlq_list_handler desc out tenant_id limit offset db =
      if str_eq tenant_id ""
      then bad_request "Missing tenant_id" "tenant_id query parameter is required"
      else dlq_list_parsed desc out limit offset db (F.parse_uuid tenant_id)

  abbrev pub dlq_got : Result DeadLetterNotification → Response
  dlq_got (err e) = not_found "Dead letter item not found"
  dlq_got (ok d) = json_response 200 (dead_letter d)

  abbrev pub dlq_get_parsed : Outcome → Database → Option ℕ → Response
  dlq_get_parsed out db none = invalid_dlq_id
  dlq_get_parsed out db (some id) = dlq_got (get_dead_letter out id db)

  unfoldable pub dlq_get_handler : Outcome → String → Database → Response
  dlq_get_handler out id db = dlq_get_parsed out db (F.parse_uuid id)

  abbrev pub dlq_retried : String → Result Notification × Database → Response × Database
  dlq_retried id (err e, db) = (database_error "Failed to retry dead letter item", db)
  dlq_retried id (ok n, db) = (
    json_response 200 (
        fields
          (("id", id) ∷ ("status", "retried") ∷ ("new_notification_id", F.uuid_string n.id) ∷ [])),
    db,
  )

  abbrev pub dlq_retry_parsed :
      Outcome → Steps → ℕ → ℕ → String → Database → Option ℕ → Response × Database
  dlq_retry_parsed out steps fresh now id db none = (invalid_dlq_id, db)
  dlq_retry_parsed out steps fresh now id db (some i) =
      dlq_retried id (retry_dead_letter out steps fresh now i db)

  unfoldable pub dlq_retry_handler :
      Outcome → Steps → ℕ → ℕ → String → Database → Response × Database
  dlq_retry_handler out steps fresh now id db =
      dlq_retry_parsed out steps fresh now id db (F.parse_uuid id)

  abbrev pub dlq_discarded : String → Result (Unit {0}) × Database → Response × Database
  dlq_discarded id (err e, db) = (database_error "Failed to discard dead letter item", db)
  dlq_discarded id (ok u, db) =
      (json_response 200 (fields (("id", id) ∷ ("status", "discarded") ∷ [])), db)

  abbrev pub dlq_discard_parsed : Outcome → ℕ → String → Database → Option ℕ → Response × Database
  dlq_discard_parsed out now id db none = (invalid_dlq_id, db)
  dlq_discard_parsed out now id db (some i) = dlq_discarded id (discard_dead_letter out now i db)

  unfoldable pub dlq_discard_handler : Outcome → ℕ → String → Database → Response × Database
  dlq_discard_handler out now id db = dlq_discard_parsed out now id db (F.parse_uuid id)
