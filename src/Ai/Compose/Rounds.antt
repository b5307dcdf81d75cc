-- ===== src/Ai/Compose/Rounds.antt =====
-- internal/ai/compose.go: `Compose`, the rounds of asking the model and running the tools it names.
use Prim.Native.String.{◌++◌}
use nimbus_app.Prelude.{ℕ, zero, suc, ◌+◌, String, Option, none, some, List, [], ◌∷◌, ◌++◌ as ◌+++◌}
use nimbus_app.Prelude.Fallible.{Fallible, value, failed, decimal}
use nimbus_app.Db.{Notification, Database}
use nimbus_app.Db.Sorter.{Sorter}
use nimbus_app.Db.Repository.{newest_first}
use nimbus_app.Api.{Formats}
use nimbus_app.Ai.{ChatMessage, ToolCall, Client, Model, said, chat_completion}
use nimbus_app.Ai.Compose.{Tooling, Meets, ToolResult, execute_tool}
use nimbus_app.Ai.Compose.Tools.{nimbus_tools, system_prompt}

pub record ComposeRequest : Type 0 where
  pub prompt : String
  pub tenant_id : String
  pub user_id : String

pub record ComposeResponse : Type 0 where
  pub message : String
  pub notification_ids : List String

abbrev pub max_rounds : ℕ
max_rounds = 5

-- The text of a tool's message, and the ids that go to `createdIDs`.
abbrev pub content_of : ToolResult → String
content_of (value (t, ids)) = t
content_of (failed e) = "Error: " ++ e

abbrev pub ids_of : ToolResult → List String
ids_of (value (t, ids)) = ids
ids_of (failed e) = []

abbrev pub tool_message : ToolCall → ToolResult → ChatMessage
tool_message tc r = record {
  role = "tool";
  content = content_of r;
  tool_calls = [];
  tool_call_id = tc.id;
  name = tc.function.name;
}

-- What one request carries from call to call; `calls` counts the tool calls so far, which `meets`
-- is asked by.
pub record Progress (Env : Type 0) : Type 0 where
  pub messages : List ChatMessage
  pub created_ids : List String
  pub env : Env
  pub db : Database
  pub calls : ℕ

module _ (F : Formats) (T : Tooling) (L : Model) (desc : Sorter Notification newest_first)
    (meets : ℕ → Meets) (client : Client) where
  abbrev pub after_tool : ToolCall → ToolResult × Database → Progress L.Env → Progress L.Env
  after_tool tc r p = record {
    messages = p.messages +++ tool_message tc r.0 ∷ [];
    created_ids = p.created_ids +++ ids_of r.0;
    env = p.env;
    db = r.1;
    calls = p.calls + 1;
  }

  -- the loop over `msg.ToolCalls`
  unfoldable pub run_tools : ℕ → ℕ → List ToolCall → Progress L.Env → Progress L.Env
  run_tools tenant user [] p = p
  run_tools tenant user (tc ∷ tcs) p = run_tools tenant user tcs (
      after_tool tc
        (execute_tool F T desc (meets p.calls) tc.function.name tc.function.arguments tenant user
          p.db)
        p)

  abbrev pub Composed : Type 0
  Composed = Fallible ComposeResponse × Progress L.Env

  abbrev pub finished : String → Progress L.Env → Composed
  finished message p = (value (record { message = message; notification_ids = p.created_ids }), p)

  -- What follows the model's message: the end, or its tools and the `next` round.
  abbrev pub on_calls :
      ℕ → ℕ → String → List ToolCall → (Progress L.Env → Composed) → Progress L.Env → Composed
  on_calls tenant user content [] next p = finished content p
  on_calls tenant user content (tc ∷ tcs) next p = next (run_tools tenant user (tc ∷ tcs) p)

  abbrev pub on_reply :
      ℕ
      → ℕ
      → ℕ
      → Fallible ChatMessage × L.Env
      → (Progress L.Env → Composed)
      → Progress L.Env
      → Composed
  on_reply round tenant user (failed e, env) next p =
      (failed ("LLM call failed (round " ++ decimal round ++ "): " ++ e), record p { env = env })
  on_reply round tenant user (value msg, env) next p =
      on_calls tenant user msg.content msg.tool_calls next
        (record p { messages = p.messages +++ msg ∷ []; env = env })

  unfoldable pub rounds : ℕ → ℕ → ℕ → ℕ → Progress L.Env → Composed
  rounds zero round tenant user p = finished "Completed (max rounds reached)" p
  rounds (suc left) round tenant user p =
      on_reply round tenant user (chat_completion L client p.messages nimbus_tools none p.env)
        (rounds left (round + 1) tenant user) p

  abbrev pub begin : ComposeRequest → L.Env → Database → Progress L.Env
  begin req env db = record {
    messages = said "system" system_prompt ∷ said "user" req.prompt ∷ [];
    created_ids = [];
    env = env;
    db = db;
    calls = 0;
  }

  abbrev pub with_ids : ComposeRequest → Option ℕ → Option ℕ → Progress L.Env → Composed
  with_ids req none user p = (failed ("invalid tenant_id: " ++ T.uuid_error req.tenant_id), p)
  with_ids req (some t) none p = (failed ("invalid user_id: " ++ T.uuid_error req.user_id), p)
  with_ids req (some t) (some u) p = rounds max_rounds 0 t u p

  unfoldable pub compose : ComposeRequest → L.Env → Database → Composed
  compose req env db =
      with_ids req (F.parse_uuid req.tenant_id) (F.parse_uuid req.user_id) (begin req env db)
