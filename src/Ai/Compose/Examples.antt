-- ===== src/Ai/Compose/Examples.antt =====
-- Requests of internal/ai/compose.go: the model calls one tool and then ends.
use nimbus_app.Prelude.{
  ℕ, zero, suc, ◌≡◌, refl, String, none, [], ◌∷◌, str_eq, if◌then◌else◌, arith, eq_iff,
}
use nimbus_app.Prelude.Int.{pos}
use nimbus_app.Prelude.Fallible.{value}
use nimbus_app.Db.Statement.{done, find, any}
use nimbus_app.Db.Repository.{create_notification, get_notification}
use nimbus_app.Db.Examples.{newest}
use nimbus_app.Api.{decoded}
use nimbus_app.Rpc.{get_call, status, plain, not_found}
use nimbus_app.Rpc.Examples.{digits, other_row, other_table}
use nimbus_app.Rpc.Isolation.{no_rows}
use nimbus_app.Ai.{ChatMessage, Model, body, Client, said, chat_completion}
use nimbus_app.Ai.Compose.{
  Tooling, Meets, status_json, tool_create_notification, channel_payload, execute_tool,
}
use nimbus_app.Ai.Compose.Rounds.{ComposeRequest, run_tools, rounds, compose}
use nimbus_app.Ai.Compose.Own.{Ended, compose_adds_own_rows}
use nimbus_app.Ai.Compose.Foreign.{status_tool_shows_foreign_rows}

abbrev asks_for_mail : ChatMessage
asks_for_mail = record {
  role = "assistant";
  content = "";
  tool_calls =
      record {
        id = "call_1";
        kind = "function";
        function = record { name = "create_notification"; arguments = "{}" };
      }
      ∷ [];
  tool_call_id = "";
  name = "";
}

abbrev reply_of : String → ChatMessage
reply_of s = if str_eq s "tool" then asks_for_mail else said "assistant" "Sent."

-- The state counts the calls: the first is answered with a tool, the others with an end.
abbrev answer_at : ℕ → String
answer_at zero = "tool"
answer_at (suc n) = "end"

abbrev two_rounds : Model
two_rounds = record {
  Env = ℕ;
  post = λ r n. (body (answer_at n), suc n);
  bad_url = λ u. none;
  encode_request = λ r. decoded "{}";
  decode_response = λ s. decoded (record {
    choices = record { message = reply_of s; finish_reason = "stop" } ∷ [];
    error = none;
  });
}

abbrev tooling : Tooling
tooling = record {
  decode_create =
      λ s. decoded (record { channel = "email"; to = "a@b.c"; subject = "Hi"; body = "Welcome" });
  limit_in = λ s. pos 0;
  decode_id = λ s. decoded s;
  marshal = λ j. "{}";
  uuid_error = λ s. "invalid UUID length";
  explain = λ e. "error";
  format_time = λ t. "";
}

abbrev client : Client
client = record { api_key = "k"; model = "m"; base_url = "https://api"; timeout = 30 }

abbrev meets : ℕ → Meets
meets n = record { outcome = done; now = 50; fresh = 1 }

abbrev request : ComposeRequest
request = record { prompt = "Welcome a@b.c"; tenant_id = "7"; user_id = "8" }

tells_of_the_new_row :
    (compose digits tooling two_rounds newest meets client request 0 no_rows).0
    ≡ value (record { message = "Sent."; notification_ids = "1" ∷ [] })
unfolding compose rounds run_tools execute_tool tool_create_notification channel_payload
    chat_completion create_notification any
tells_of_the_new_row = refl

compose_adds_own_rows_example :
    Ended digits 7 8 tooling two_rounds newest meets client no_rows
      (compose digits tooling two_rounds newest meets client request 0 no_rows)
compose_adds_own_rows_example =
    compose_adds_own_rows digits 7 8 tooling two_rounds newest meets client no_rows request 0 refl
      refl

status_tool_shows_foreign_rows_example :
    (get_call digits done "7" "1" other_table ≡ status (plain not_found "notification not found"))
    × (execute_tool digits tooling newest (meets 0) "get_notification_status" "1" 7 8 other_table
        ≡ (value (tooling.marshal (status_json "1" "email" "sent" 1), []), other_table))
unfolding get_notification find
status_tool_shows_foreign_rows_example =
    status_tool_shows_foreign_rows digits tooling newest "7" "1" "1" 1 7 8 other_row other_table
      (meets 0) (ground (arith, eq_iff "7" "")) (ground (arith, eq_iff "8" "7")) refl refl refl refl
