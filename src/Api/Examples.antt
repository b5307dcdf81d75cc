-- ===== src/Api/Examples.antt =====
-- Requests to internal/api/handler.go, with a key store that is a list and UUIDs of one character.
use nimbus_app.Prelude.{
  ℕ, String, ◌≢◌, ◌≡◌, refl, true, some, none, [], arith, str_eq, if◌then◌else◌,
}
use nimbus_app.Db.Statement.{done, refused}
use nimbus_app.Redis.{reply}
use nimbus_app.Redis.Memory.{memory, get}
use nimbus_app.Redis.Idempotency.{build_key, check, reserve}
use nimbus_app.Api.{NotificationRequest, decoded, Formats, State, is_valid_channel}
use nimbus_app.Api.Create.{Meets, validate, key_of, create_handler, new_handler_with_sqs}
use nimbus_app.Api.Durable.{Ends, created_is_durable, failed_create}
use nimbus_app.Prelude.Int.{pos}
use nimbus_app.Api.{absent, number, Decoded}
use nimbus_app.Api.Handlers.{
  StatusRequest, status_handler, dlq_retry_handler, dlq_discard_handler, list_handler,
}
use nimbus_app.Api.Errors.{IsHonest, errors_change_nothing}
use nimbus_app.Api.Listing.{IsPageOf, pages_are_bounded}
use nimbus_app.Db.Examples.{newest}
use nimbus_app.Db.DeadLetter.Atomic.{all_steps}
use nimbus_app.Api.Release.{failed_create_frees_key, unanswered_check_frees_anothers_key}

abbrev formats : Formats
formats = record {
  parse_uuid = λ s. if str_eq s "7" then some 7 else if str_eq s "8" then some 8 else none;
  uuid_string = λ i. "1";
  digest = λ s. "hash";
  json_valid = λ s. true;
}

abbrev request : NotificationRequest
request = record { tenant_id = "7"; user_id = "8"; channel = "email"; payload = "{}" }

abbrev empty : State memory
empty = record {
  db = record { notifications = []; dead_letters = []; is_json = λ s. true };
  store = [];
  queue = [];
}

abbrev smooth : Meets
smooth = record {
  fresh = 1;
  check = done;
  now_check = 10;
  reserve = done;
  now_reserve = 11;
  insert = done;
  now = 12;
  release = done;
  now_release = 13;
  store = done;
  now_store = 14;
  unix = 1000;
  send = done;
  now_send = 15;
}

abbrev again : Meets
again = record smooth { fresh = 2; now_check = 100; now_reserve = 101 }

abbrev no_database : Meets
no_database = record smooth { insert = refused }

abbrev no_answer : Meets
no_answer = record smooth { check = refused; insert = refused }

-- The state after the first request.
abbrev after : State memory
after = (create_handler memory formats new_handler_with_sqs smooth "key" (decoded request) empty).1

-- Another request has reserved the key.
abbrev taken : State memory
taken = record empty { store = (reserve memory done 5 "7" "key" []).1 }

created_is_durable_example :
    Ends memory formats new_handler_with_sqs smooth "key" request 7 8 empty
      (create_handler memory formats new_handler_with_sqs smooth "key" (decoded request) empty)
unfolding validate is_valid_channel key_of
created_is_durable_example =
    created_is_durable memory formats new_handler_with_sqs smooth "key" request 7 8 empty refl

failed_create_frees_key_example :
    let r =
      create_handler memory formats new_handler_with_sqs no_database "key"
        (decoded request)
        empty in
    (r.0 ≡ failed_create)
    × (r.1.db ≡ empty.db)
    × (r.1.queue ≡ empty.queue)
    × ((t : ℕ) → check memory done t "7" "key" r.1.store ≡ reply none)
    × ((t : ℕ) (k : String)
        → k ≢ build_key "7" "key"
        → memory.get t k r.1.store ≡ memory.get t k empty.store)
unfolding validate is_valid_channel key_of get
failed_create_frees_key_example =
    failed_create_frees_key memory formats new_handler_with_sqs no_database "key" request 7 8 empty
      refl refl refl refl refl refl refl refl (ground arith)

unanswered_check_frees_anothers_key_example :
    check memory done 20 "7" "key"
      (create_handler memory formats new_handler_with_sqs no_answer "key"
        (decoded request)
        taken).1.store
    ≡ reply none
unfolding validate is_valid_channel key_of get reserve build_key
unanswered_check_frees_anothers_key_example =
    unanswered_check_frees_anothers_key memory formats new_handler_with_sqs no_answer "key" request
      7 8 20 taken refl refl refl refl refl refl

abbrev bad_status : Decoded StatusRequest
bad_status = decoded (record { error = none; status = "dead_lettered"; attempt = pos 1 })

errors_change_nothing_example :
    IsHonest formats 100 2 "7" empty.db (status_handler formats done 100 "7" bad_status empty.db)
    × IsHonest formats 100 2 "7" empty.db
        (dlq_retry_handler formats done all_steps 2 100 "7" empty.db)
    × IsHonest formats 100 2 "7" empty.db (dlq_discard_handler formats done 100 "7" empty.db)
errors_change_nothing_example =
    errors_change_nothing formats 100 2 "7" empty.db done (ground arith) all_steps (ground arith)
      bad_status

pages_are_bounded_example :
    IsPageOf formats newest done
      (number (pos 500))
      absent
      after.db
      (some 7)
      (list_handler formats newest done "7" (number (pos 500)) absent after.db)
pages_are_bounded_example =
    pages_are_bounded formats newest done (number (pos 500)) absent after.db "7"
