-- ===== src/Ai.antt =====
-- internal/ai/client.go: the client of the language model. `Model` is what lies outside: the network
-- with the service behind it, and Go's JSON and URL packages.
pub mod Compose
use Prim.Native.String.{◌++◌}
use nimbus_app.Prelude.{
  ℕ, ◌*◌, String, Bool, true, false, Option, none, some, List, [], ◌∷◌, str_eq, ◌==◌, if◌then◌else◌,
}
use nimbus_app.Prelude.Fallible.{Fallible, value, failed}
use nimbus_app.Breaker.{second}
use nimbus_app.Api.{Decoded, malformed, decoded}

pub record FunctionCall : Type 0 where
  pub name : String
  pub arguments : String

pub record ToolCall : Type 0 where
  pub id : String
  pub kind : String
  pub function : FunctionCall

pub record ChatMessage : Type 0 where
  pub role : String
  pub content : String
  pub tool_calls : List ToolCall
  pub tool_call_id : String
  pub name : String

-- `parameters` is raw JSON.
pub record ToolDefinition : Type 0 where
  pub name : String
  pub description : String
  pub parameters : String

pub record Tool : Type 0 where
  pub kind : String
  pub function : ToolDefinition

-- The tool choice is raw JSON too; `max_tokens` stays 0.
pub record ChatRequest : Type 0 where
  pub model : String
  pub messages : List ChatMessage
  pub tools : List Tool
  pub tool_choice : Option String

pub record Choice : Type 0 where
  pub message : ChatMessage
  pub finish_reason : String

-- `error` is the message and the type of the service's error.
pub record ChatResponse : Type 0 where
  pub choices : List Choice
  pub error : Option (String × String)

-- A POST: no answer, an answer that breaks off, with the error and what was read, or a body.
pub data Exchange : Type 0 where
  no_response : String → Exchange
  broken_off : String → String → Exchange
  body : String → Exchange

pub record HttpRequest : Type 0 where
  pub url : String
  pub headers : List (String × String)
  pub content : String

pub record Model : Type 1 where
  pub Env : Type 0
  pub post : HttpRequest → Env → Exchange × Env
  pub bad_url : String → Option String
  pub encode_request : ChatRequest → Decoded String
  pub decode_response : String → Decoded ChatResponse

pub record Config : Type 0 where
  pub api_key : String
  pub model : String
  pub base_url : String
  pub timeout : ℕ

pub record Client : Type 0 where
  pub api_key : String
  pub model : String
  pub base_url : String
  pub timeout : ℕ

abbrev pub or_default : String → String → String
or_default s d = if str_eq s "" then d else s

unfoldable pub new_client : Config → Fallible Client
new_client cfg =
    if str_eq cfg.api_key ""
    then failed "OPENAI_API_KEY is required for AI features"
    else value (record {
      api_key = cfg.api_key;
      model = or_default cfg.model "gpt-4o-mini";
      base_url = or_default cfg.base_url "https://api.openai.com/v1";
      timeout = if cfg.timeout == 0 then 30 * second else cfg.timeout;
    })

-- Without tools there is no tool choice either.
abbrev chat_request : Client → List ChatMessage → List Tool → Option String → ChatRequest
chat_request c messages [] choice = record {
  model = c.model;
  messages = messages;
  tools = [];
  tool_choice = none;
}
chat_request c messages (t ∷ ts) choice = record {
  model = c.model;
  messages = messages;
  tools = t ∷ ts;
  tool_choice = choice;
}

abbrev first_choice : List Choice → Fallible ChatMessage
first_choice [] = failed "no choices returned from API"
first_choice (c ∷ cs) = value c.message

abbrev api_error : ChatResponse → Option (String × String) → Fallible ChatMessage
api_error r (some (message, kind)) = failed ("OpenAI API error: " ++ message ++ " (" ++ kind ++ ")")
api_error r none = first_choice r.choices

abbrev decoded_response : Decoded ChatResponse → Fallible ChatMessage
decoded_response (malformed e) = failed ("failed to parse response: " ++ e)
decoded_response (decoded r) = api_error r r.error

module _ (L : Model) where
  abbrev received : Exchange → Fallible ChatMessage
  received (no_response e) = failed ("API request failed: " ++ e)
  received (broken_off e part) = failed ("failed to read response: " ++ e)
  received (body b) = decoded_response (L.decode_response b)

  abbrev posted : Exchange × L.Env → Fallible ChatMessage × L.Env
  posted r = (received r.0, r.1)

  abbrev http_request : Client → String → HttpRequest
  http_request c b = record {
    url = c.base_url ++ "/chat/completions";
    headers = ("Content-Type", "application/json") ∷ ("Authorization", "Bearer " ++ c.api_key) ∷ [];
    content = b;
  }

  abbrev sent : Client → String → Option String → L.Env → Fallible ChatMessage × L.Env
  sent c b (some e) env = (failed ("failed to create request: " ++ e), env)
  sent c b none env = posted (L.post (http_request c b) env)

  abbrev encoded : Client → Decoded String → L.Env → Fallible ChatMessage × L.Env
  encoded c (malformed e) env = (failed ("failed to marshal request: " ++ e), env)
  encoded c (decoded b) env = sent c b (L.bad_url (c.base_url ++ "/chat/completions")) env

  unfoldable pub chat_completion :
      Client → List ChatMessage → List Tool → Option String → L.Env → Fallible ChatMessage × L.Env
  chat_completion c messages tools choice env =
      encoded c (L.encode_request (chat_request c messages tools choice)) env

  -- A message with a role and a content only.
  abbrev pub content_of : Fallible ChatMessage → Fallible String
  content_of (failed e) = failed e
  content_of (value msg) = value msg.content

abbrev pub said : String → String → ChatMessage
said role content = record {
  role = role;
  content = content;
  tool_calls = [];
  tool_call_id = "";
  name = "";
}

module _ (L : Model) where
  unfoldable pub generate_text : Client → String → String → L.Env → Fallible String × L.Env
  generate_text c system_prompt user_prompt env =
      let r =
        chat_completion L c (said "system" system_prompt ∷ said "user" user_prompt ∷ []) [] none
          env in
      (content_of L r.0, r.1)
