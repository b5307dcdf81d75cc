-- ===== src/Rag/Handler.antt =====
-- internal/rag/handler.go: POST /v1/ai/ask.
use Prim.Native.String.{slice, len}
use nimbus_app.Prelude.{ℕ, String, Bool, ◌&&◌, List, ltb, str_eq, if◌then◌else◌}
use nimbus_app.Prelude.Fallible.{Fallible, value, failed}
use nimbus_app.Api.{Decoded, malformed, decoded}
use nimbus_app.Rag.{Row}
use nimbus_app.Rag.Store.{Read}
use nimbus_app.Rag.Pipeline.{AskRequest, AskResponse, Parts, Asked, ask}

pub data Body : Type 0 where
  problem : ℕ → String → String → Body
  asked : AskResponse → Body

pub record Response : Type 0 where
  pub code : ℕ
  pub content_type : String
  pub body : Body

abbrev pub write_err_json : ℕ → String → String → Response
write_err_json status title detail = record {
  code = status;
  content_type = "application/problem+json";
  body = problem status title detail;
}

abbrev pub is_blocked_err : String → Bool
is_blocked_err e = ltb 16 (len e) && str_eq (slice e 0 16) "request blocked:"

abbrev pub answered : Fallible AskResponse → Response
answered (failed e) =
    if is_blocked_err e
    then write_err_json 400 "Request blocked" e
    else write_err_json 500 "RAG pipeline failed" e
answered (value r) = record { code = 200; content_type = "application/json"; body = asked r }

module _ (G : Parts) where
  abbrev answer : Asked G → Response × G.model.Env
  answer r = (answered r.0, r.1)

  unfoldable pub handle_ask :
      Read
      → (List (String × String) → List (String × String))
      → Decoded AskRequest
      → List Row
      → G.model.Env
      → Response × G.model.Env
  handle_ask read order (malformed e) kb env = (write_err_json 400 "Malformed JSON body" e, env)
  handle_ask read order (decoded req) kb env =
      if str_eq req.query ""
      then (write_err_json 400 "Missing required field" "query is required", env)
      else if str_eq req.tenant_id ""
      then (write_err_json 400 "Missing required field" "tenant_id is required", env)
      else answer (ask G read order req kb env)
