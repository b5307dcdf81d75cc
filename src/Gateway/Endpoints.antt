-- ===== src/Gateway/Endpoints.antt =====
-- cmd/gateway/main.go: the table of routes, and the endpoints that `run` serves itself.
use Prim.Native.String.{◌++◌}
use nimbus_app.Prelude.{
  ℕ, String, Bool, true, false, List, [], ◌∷◌, ◌++◌ as ◌+++◌, map, ◌==◌, str_eq, if◌then◌else◌,
}
use nimbus_app.Breaker.{CircuitBreaker, Stats, stats, reset}
use nimbus_app.Sender.Wiring.{ses_breaker, sns_breaker, webhook_breaker}
use nimbus_app.Gateway.{Running}

-- The handlers of the routes.
pub data Endpoint : Type 0 where
  post_notification list_rows read_notification patch_status : Endpoint
  list_dlq read_dlq retry_dlq discard_dlq : Endpoint
  ai_compose ai_ask health circuits reset_circuit metrics_page : Endpoint

pub record Route : Type 0 where
  pub method : String
  pub pattern : String
  pub endpoint : Endpoint
  pub rate_limited : Bool

abbrev limited : String → String → Endpoint → Route
limited method pattern endpoint = record {
  method = method;
  pattern = pattern;
  endpoint = endpoint;
  rate_limited = true;
}

abbrev unlimited : String → String → Endpoint → Route
unlimited method pattern endpoint = record {
  method = method;
  pattern = pattern;
  endpoint = endpoint;
  rate_limited = false;
}

-- `/metrics` takes any method, written `*`.
unfoldable pub routes : Running → List Route
routes g =
    limited "POST" "/v1/notifications" post_notification
      ∷ limited "GET" "/v1/notifications" list_rows
      ∷ limited "GET" "/v1/notifications/{id}" read_notification
      ∷ limited "PATCH" "/v1/notifications/{id}/status" patch_status
      ∷ limited "GET" "/v1/dlq" list_dlq
      ∷ limited "GET" "/v1/dlq/{id}" read_dlq
      ∷ limited "POST" "/v1/dlq/{id}/retry" retry_dlq
      ∷ limited "POST" "/v1/dlq/{id}/discard" discard_dlq
      ∷ (if g.ai_enabled then limited "POST" "/v1/ai/compose" ai_compose ∷ [] else [])
    +++ (if g.rag_enabled then limited "POST" "/v1/ai/ask" ai_ask ∷ [] else [])
    +++ unlimited "GET" "/health" health
      ∷ unlimited "GET" "/v1/health/circuits" circuits
      ∷ unlimited "POST" "/v1/admin/circuits/{name}/reset" reset_circuit
      ∷ unlimited "*" "/metrics" metrics_page
      ∷ []

-- The breakers' addresses, in the order of the endpoints.
abbrev pub breaker_list : Bool → List ℕ
breaker_list sns_enabled =
    ses_breaker ∷ webhook_breaker ∷ (if sns_enabled then sns_breaker ∷ [] else [])

unfoldable pub circuits_endpoint : (ℕ → String) → List ℕ → (ℕ → CircuitBreaker) → List Stats
circuits_endpoint format addresses breakers = map (λ i. stats format (breakers i)) addresses

pub data ResetAnswer : Type 0 where
  was_reset : String → ResetAnswer
  no_breaker : String → ResetAnswer

abbrev put : ℕ → CircuitBreaker → (ℕ → CircuitBreaker) → ℕ → CircuitBreaker
put i b breakers j = if j == i then b else breakers j

-- The first breaker of this name is reset; 404 where there is none.
unfoldable pub reset_endpoint :
    ℕ → String → List ℕ → (ℕ → CircuitBreaker) → ResetAnswer × (ℕ → CircuitBreaker)
reset_endpoint now name [] breakers = (no_breaker ("circuit breaker not found: " ++ name), breakers)
reset_endpoint now name (i ∷ is) breakers =
    let rest = reset_endpoint now name is breakers in
    if str_eq (breakers i).config.name name
    then (was_reset name, put i (reset now (breakers i)) breakers)
    else rest
