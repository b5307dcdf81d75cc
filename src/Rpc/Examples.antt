-- ===== src/Rpc/Examples.antt =====
-- Calls of internal/grpc/server.go, with UUIDs of one character.
use nimbus_app.Prelude.{
  ◌≢◌, ◌≡◌, refl, inl, String, true, some, none, List, [], ◌∷◌, arith, str_eq, eq_iff,
  if◌then◌else◌, ◌==◌,
}
use nimbus_app.Db.{Notification, Database, status_pending}
use nimbus_app.Db.Statement.{done, find, any}
use nimbus_app.Db.Repository.{get_notification}
use nimbus_app.Api.{Formats, is_valid_channel}
use nimbus_app.Rpc.{
  answer, CreateRequest, extract_and_validate, trim_left, trim_right, tenant_of, get_call,
}
use nimbus_app.Rpc.Isolation.{
  no_rows, foreign_row_shows, message_of, created_is_readable, made, row,
}
use nimbus_app.Rpc.Delivery.{
  Poll, IsStreamOf, stream_call, streams_until_terminal, no_foreign_stream,
}

abbrev pub digits : Formats
digits = record {
  parse_uuid = λ s.
      if str_eq s "7"
      then some 7
      else if str_eq s "8"
      then some 8
      else if str_eq s "1"
      then some 1
      else none;
  uuid_string = λ i. if i == 7 then "7" else if i == 8 then "8" else "1";
  digest = λ s. s;
  json_valid = λ s. true;
}

abbrev request : CreateRequest
request = record { tenant_id = ""; user_id = "8"; channel = "email"; payload = "{}" }

abbrev pub other_row : Notification
other_row = record {
  payload = "{}";
  id = 1;
  tenant_id = 8;
  user_id = 8;
  created_at = 10;
  updated_at = 20;
  next_retry_at = none;
  error_message = none;
  channel = "email";
  status = "sent";
  attempt = 1;
}

abbrev pub other_table : Database
other_table = record { notifications = other_row ∷ []; dead_letters = []; is_json = λ s. true }

abbrev polls : List Poll
polls = record { outcome = done; db = other_table; now = 30; delivered = true } ∷ []

finds_the_tenant :
    extract_and_validate (("secret", "7") ∷ []) (some ("Bearer  secret " ∷ [])) ≡ answer "7"
unfolding extract_and_validate tenant_of trim_left trim_right
finds_the_tenant = refl

named : Path String "7" "" → ⊥
named e = ground (arith, (eq_iff "7" "").1 e)

foreign : Path String "8" "7" → ⊥
foreign e = ground (arith, (eq_iff "8" "7").1 e)

foreign_row_shows_example :
    get_call digits done "7" "1" other_table ≢ get_call digits done "7" "1" no_rows
unfolding get_notification find
foreign_row_shows_example =
    foreign_row_shows digits "7" "1" 1 other_row other_table named refl refl foreign

created_is_readable_example :
    ((made digits 100 1 7 8 "7" request no_rows).0
      ≡ answer (record { id = "1"; status = status_pending; created_at = 100 }))
    × (get_call digits done "7" "1" (made digits 100 1 7 8 "7" request no_rows).1
        ≡ answer (message_of digits (row digits 100 1 7 8 "7" request no_rows)))
unfolding is_valid_channel any
created_is_readable_example =
    created_is_readable digits 100 1 7 8 "7" request no_rows refl refl named (inl refl) refl refl
      refl refl

streams_until_terminal_example :
    IsStreamOf digits polls (stream_call digits done "8" "1" other_table polls)
streams_until_terminal_example = streams_until_terminal digits done "8" "1" other_table polls

no_foreign_stream_example :
    ((stream_call digits done "7" "1" other_table polls).0 ≡ [])
    × (stream_call digits done "7" "1" other_table polls
        ≡ stream_call digits done "7" "1" no_rows polls)
unfolding get_notification find
no_foreign_stream_example =
    no_foreign_stream digits "7" "1" 1 other_row other_table polls refl refl foreign
