-- ===== src/Rag/Embedder.antt =====
-- internal/rag/embedder.go: the vector of a text. The network is that of the language model's client.
use Prim.Native.String.{◌++◌}
use nimbus_app.Prelude.{
  ℕ, String, Option, none, some, List, [], ◌∷◌, length, ◌==◌, str_eq, if◌then◌else◌,
}
use nimbus_app.Prelude.Fallible.{Fallible, value, failed, decimal}
use nimbus_app.Api.{Decoded, malformed, decoded}
use nimbus_app.Ai.{Model, Exchange, no_response, broken_off, body, HttpRequest}
use nimbus_app.Rag.{Floats}

-- `error` is the message and the type of the service's error.
pub record EmbedResponse (N : Floats) : Type 0 where
  pub data_rows : List (List N.Single)
  pub error : Option (String × String)

-- `encode` marshals the input and the model's name.
pub record EmbedCodec (N : Floats) : Type 0 where
  pub encode : String → String → Decoded String
  pub decode : String → Decoded (EmbedResponse N)

abbrev pub embedding_model : String
embedding_model = "text-embedding-3-small"

abbrev pub embedding_dim : ℕ
embedding_dim = 1536

abbrev pub embeddings_url : String
embeddings_url = "https://api.openai.com/v1/embeddings"

module _ (N : Floats) where
  abbrev of_dimension : List N.Single → Fallible (List N.Single)
  of_dimension v =
      if length v == embedding_dim
      then value v
      else failed (
          "unexpected embedding dimension: got "
          ++ decimal (length v)
          ++ ", want "
          ++ decimal embedding_dim)

  abbrev first_vector : List (List N.Single) → Fallible (List N.Single)
  first_vector [] = failed "no embedding returned"
  first_vector (v ∷ vs) = of_dimension v

  abbrev vector_or_error : EmbedResponse N → Option (String × String) → Fallible (List N.Single)
  vector_or_error r (some (message, kind)) =
      failed ("OpenAI embedding error (" ++ kind ++ "): " ++ message)
  vector_or_error r none = first_vector r.data_rows

  abbrev vector_in : Decoded (EmbedResponse N) → Fallible (List N.Single)
  vector_in (malformed e) = failed ("parse embedding response: " ++ e)
  vector_in (decoded r) = vector_or_error r r.error

  module _ (K : EmbedCodec N) (L : Model) where
    -- The error of reading the body is ignored.
    abbrev received : Exchange → Fallible (List N.Single)
    received (no_response e) = failed ("embedding API request failed: " ++ e)
    received (broken_off e part) = vector_in (K.decode part)
    received (body b) = vector_in (K.decode b)

    abbrev posted : Exchange × L.Env → Fallible (List N.Single) × L.Env
    posted r = (received r.0, r.1)

    abbrev embed_request : String → String → HttpRequest
    embed_request api_key b = record {
      url = embeddings_url;
      headers = ("Content-Type", "application/json") ∷ ("Authorization", "Bearer " ++ api_key) ∷ [];
      content = b;
    }

    abbrev sent : String → String → Option String → L.Env → Fallible (List N.Single) × L.Env
    sent api_key b (some e) env = (failed e, env)
    sent api_key b none env = posted (L.post (embed_request api_key b) env)

    abbrev encoded : String → Decoded String → L.Env → Fallible (List N.Single) × L.Env
    encoded api_key (malformed e) env = (failed ("marshal embed request: " ++ e), env)
    encoded api_key (decoded b) env = sent api_key b (L.bad_url embeddings_url) env

    unfoldable pub embed : String → String → L.Env → Fallible (List N.Single) × L.Env
    embed api_key text env =
        if str_eq text ""
        then (failed "cannot embed empty text", env)
        else encoded api_key (K.encode text embedding_model) env
