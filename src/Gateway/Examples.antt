-- ===== src/Gateway/Examples.antt =====
-- Starts of cmd/gateway/main.go.
use nimbus_app.Prelude.{ℕ, ◌≡◌, refl, true, false, none, some, [], ◌∷◌}
use nimbus_app.Prelude.Fallible.{value, decimal_in}
use nimbus_app.Prelude.Int.{pos}
use nimbus_app.Breaker.{CircuitBreaker, closed, record_failure, reset, new, run, step, fails}
use nimbus_app.Api.Create.{new_handler}
use nimbus_app.Sender.Wiring.{sns_breaker, gateway_breakers}
use nimbus_app.Settings.{load, Environment}
use nimbus_app.Settings.Texts.{auth_tokens}
use nimbus_app.Gateway.{Found, worker_config, start}
use nimbus_app.Gateway.Connections.{dsn}
use nimbus_app.Gateway.Endpoints.{breaker_list, was_reset, no_breaker, reset_endpoint}

abbrev no_variables : Environment
no_variables name = ""

abbrev without_redis : Found
without_redis = record {
  logger = none;
  database = none;
  redis = some "connection refused";
  producer = none;
  ses = none;
  sns = none;
  ai_client = none;
  listener = none;
}

-- Without Redis the handler has neither service, also where a queue is configured.
runs_without_redis :
    (let config = load no_variables in start (λ v e. "") config without_redis)
    ≡ value (record {
      services = new_handler;
      rate_limiter = none;
      sns_enabled = true;
      ai_enabled = false;
      rag_enabled = false;
      worker = worker_config;
    })
unfolding start load auth_tokens
runs_without_redis = refl

abbrev down : ℕ → CircuitBreaker
down i = run (fails 1 ∷ fails 2 ∷ fails 3 ∷ fails 4 ∷ fails 5 ∷ []) (gateway_breakers 0 i)

resets_by_name : (reset_endpoint 9 "sns-sms" (breaker_list true) down).0 ≡ was_reset "sns-sms"
unfolding reset_endpoint run step record_failure gateway_breakers new
resets_by_name = refl

closes_the_breaker :
    ((reset_endpoint 9 "sns-sms" (breaker_list true) down).1 sns_breaker).state ≡ closed
unfolding reset_endpoint reset run step record_failure gateway_breakers new
closes_the_breaker = refl

leaves_out_sns :
    (reset_endpoint 9 "sns-sms" (breaker_list false) down).0
    ≡ no_breaker "circuit breaker not found: sns-sms"
unfolding reset_endpoint run step record_failure gateway_breakers new
leaves_out_sns = refl

connects_without_a_password :
    dsn (record {
      host = "localhost";
      port = pos 5432;
      user = "u";
      password = "";
      database = "nimbus";
      ssl_mode = "disable";
    })
    ≡ "host=localhost port=5432 user=u dbname=nimbus sslmode=disable"
unfolding dsn decimal_in
connects_without_a_password = refl
