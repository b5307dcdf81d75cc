-- ===== src/Ai/Compose/Handler.antt =====
-- internal/ai/handler.go: POST /v1/ai/compose.
use nimbus_app.Prelude.{ℕ, String, ◌||◌, str_eq, if◌then◌else◌}
use nimbus_app.Prelude.Fallible.{Fallible, value, failed}
use nimbus_app.Db.{Notification, Database}
use nimbus_app.Db.Sorter.{Sorter}
use nimbus_app.Db.Repository.{newest_first}
use nimbus_app.Api.{Formats, Decoded, malformed, decoded}
use nimbus_app.Ai.{Client, Model}
use nimbus_app.Ai.Compose.{Tooling, Meets}
use nimbus_app.Ai.Compose.Rounds.{ComposeRequest, ComposeResponse, Composed, compose}

pub record ErrorResponse : Type 0 where
  pub kind : String
  pub title : String
  pub status : ℕ
  pub detail : String

pub data Body : Type 0 where
  problem : ErrorResponse → Body
  composed : ComposeResponse → Body

pub record Response : Type 0 where
  pub code : ℕ
  pub content_type : String
  pub body : Body

abbrev pub write_err : ℕ → String → String → String → Response
write_err status kind title detail = record {
  code = status;
  content_type = "application/problem+json";
  body = problem (record { kind = kind; title = title; status = status; detail = detail });
}

abbrev pub answered : Fallible ComposeResponse → Response
answered (failed e) = write_err 500 "ai_error" "AI processing failed" e
answered (value r) = record { code = 200; content_type = "application/json"; body = composed r }

module _ (F : Formats) (T : Tooling) (L : Model) (desc : Sorter Notification newest_first)
    (meets : ℕ → Meets) (client : Client) where
  abbrev pub answer : Composed F T L desc meets client → Response × L.Env × Database
  answer r = (answered r.0, r.1.env, r.1.db)

  -- The response, with what the request leaves.
  unfoldable pub handle_compose :
      Decoded ComposeRequest → L.Env → Database → Response × L.Env × Database
  handle_compose (malformed e) env db =
      (write_err 400 "invalid_request" "Malformed JSON body" e, env, db)
  handle_compose (decoded req) env db =
      if str_eq req.prompt ""
      then (write_err 400 "invalid_request" "Missing prompt" "prompt field is required", env, db)
      else if str_eq req.tenant_id "" || str_eq req.user_id ""
      then (
        write_err 400 "invalid_request" "Missing required fields"
            "tenant_id and user_id are required",
        env,
        db,
      )
      else answer (compose F T L desc meets client req env db)
