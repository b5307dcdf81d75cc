-- ===== src/Gateway.antt =====
-- cmd/gateway/main.go: what `run` makes of its configuration and of the services that it finds, and
-- the endpoints that it serves itself. The senders are those of Sender/Wiring.
pub mod Connections
pub mod Endpoints
mod Examples
use Prim.Native.String.{◌++◌}
use nimbus_app.Prelude.{
  ℕ, ◌+◌, ◌*◌, String, Bool, true, false, not, ◌&&◌, Option, none, some, List, [], ◌∷◌,
  ◌++◌ as ◌+++◌, map, ◌==◌, str_eq, if◌then◌else◌,
}
use nimbus_app.Prelude.Int.{ℤ, pos, negsuc}
use nimbus_app.Prelude.Fallible.{Fallible, value, failed, ◌>>=◌, decimal}
use nimbus_app.Breaker.{CircuitBreaker, Stats, stats, reset, second}
use nimbus_app.Redis.RateLimit.{RateLimitConfig}
use nimbus_app.Api.Create.{
  Services, new_handler, new_handler_with_idempotency, new_handler_with_sqs,
}
use nimbus_app.Sender.Wiring.{ses_breaker, sns_breaker, webhook_breaker}
use nimbus_app.Settings.{Config, Loaded, loaded, invalid}
use nimbus_app.Settings.Texts.{NumError}
use nimbus_app.Worker
use nimbus_app.Ai

-- What the constructors of the services answer: the text of an error, or none.
pub record Found : Type 0 where
  pub logger : Option String
  pub database : Option String
  pub redis : Option String
  pub producer : Option String
  pub ses : Option String
  pub sns : Option String
  pub ai_client : Option String
  pub listener : Option String

-- What is running behind the two ports; `rate_limiter` is none where Redis is not there.
pub record Running : Type 0 where
  pub services : Services
  pub rate_limiter : Option RateLimitConfig
  pub sns_enabled : Bool
  pub ai_enabled : Bool
  pub rag_enabled : Bool
  pub worker : Worker.Config

abbrev pub is_up : Option String → Bool
is_up none = true
is_up (some e) = false

-- A service without which the program ends.
abbrev pub required : String → Option String → Fallible (Unit {0})
required what none = value tt
required what (some e) = failed (what ++ e)

abbrev pub configured : (String → NumError → String) → Loaded Config → Fallible Config
configured explain (loaded cfg) = value cfg
configured explain (invalid name e) =
    failed ("failed to load config: invalid " ++ name ++ ": " ++ explain name e)

-- The producer is used only beside the idempotency service.
abbrev pub handler_services : Bool → Bool → Services
handler_services true true = new_handler_with_sqs
handler_services true false = new_handler_with_idempotency
handler_services false producer = new_handler

abbrev pub has_producer : Config → Found → Bool
has_producer cfg found = not (str_eq cfg.sqs_queue_url "") && is_up found.producer

abbrev pub rate_limit_config : RateLimitConfig
rate_limit_config = record { limit = 100; window = 60 * second }

abbrev pub worker_config : Worker.Config
worker_config = record {
  poll_interval = pos (5 * second);
  batch_size = pos 10;
  max_retries = pos 5;
}

abbrev pub assembled : Config → Found → Running
assembled cfg found = record {
  services = handler_services (is_up found.redis) (has_producer cfg found);
  rate_limiter = if is_up found.redis then some rate_limit_config else none;
  sns_enabled = is_up found.sns;
  ai_enabled = cfg.ai_enabled && is_up found.ai_client;
  rag_enabled = cfg.ai_enabled;
  worker = worker_config;
}

unfoldable pub start : (String → NumError → String) → Loaded Config → Found → Fallible Running
start explain config found = do
  cfg ← configured explain config
  u ← required "failed to create logger: " found.logger
  v ← required "failed to connect to database: " found.database
  w ← required "failed to create SES email sender: " found.ses
  x ← required "failed to create gRPC listener: " found.listener
  value (assembled cfg found)

-- How `run` ends: an error of the server, or a signal, after which the gRPC server is drained and
-- the HTTP server has ten seconds.
pub data End : Type 0 where
  server_failed : String → End
  signalled : Option String → End

abbrev pub exit_of : End → Fallible (Unit {0})
exit_of (server_failed e) = failed ("server error: " ++ e)
exit_of (signalled none) = value tt
exit_of (signalled (some e)) = failed ("graceful shutdown failed: " ++ e)
