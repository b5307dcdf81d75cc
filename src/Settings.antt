-- ===== src/Settings.antt =====
-- internal/config/config.go: the configuration that the program reads from its environment.
pub mod Texts
pub mod Split
pub mod Tokens
mod Examples
use nimbus_app.Prelude.{ℕ, String, Bool, true, false, not, List, str_eq, if◌then◌else◌}
use nimbus_app.Prelude.Int.{ℤ, pos, negsuc}
use nimbus_app.Settings.Texts.{NumError, Parsed, parsed, num_error, atoi, auth_tokens}

-- An error of `Load`, by the variable that it names.
pub data Loaded {ℓ} (A : Type ℓ) : Type ℓ where
  loaded : A → Loaded A
  invalid : String → NumError → Loaded A

infixl 5 ◌>>=◌
abbrev pub ◌>>=◌ {ℓ κ} : {A : Type ℓ} {B : Type κ} → Loaded A → (A → Loaded B) → Loaded B
loaded a >>= f = f a
invalid v e >>= f = invalid v e

pub record Config : Type 0 where
  pub port : ℤ
  pub log_level : String
  pub env : String
  pub db_host : String
  pub db_port : ℤ
  pub db_user : String
  pub db_password : String
  pub db_name : String
  pub db_ssl_mode : String
  pub redis_host : String
  pub redis_port : ℤ
  pub redis_password : String
  pub redis_db : ℤ
  pub sqs_region : String
  pub sqs_queue_url : String
  pub sqs_dlq_url : String
  pub smtp_host : String
  pub smtp_port : ℤ
  pub smtp_username : String
  pub smtp_password : String
  pub smtp_from : String
  pub aws_region : String
  pub ses_from_email : String
  pub sns_region : String
  pub webhook_timeout : ℤ
  pub ai_enabled : Bool
  pub openai_api_key : String
  pub openai_model : String
  pub grpc_port : ℤ
  pub grpc_auth_tokens : List (String × String)

-- `os.Getenv`: a variable that is not set is empty.
abbrev pub Environment : Type 0
Environment = String → String

abbrev pub setting : Environment → String → String → String
setting env name default = if str_eq (env name) "" then default else env name

abbrev number_or : String → Parsed → Loaded ℤ
number_or name (parsed n) = loaded n
number_or name (num_error e) = invalid name e

abbrev pub number : Environment → String → ℤ → Loaded ℤ
number env name default =
    if str_eq (env name) "" then loaded default else number_or name (atoi (env name))

unfoldable pub load : Environment → Loaded Config
load env = do
  port ← number env "PORT" (pos 8080)
  db_port ← number env "DB_PORT" (pos 5432)
  redis_port ← number env "REDIS_PORT" (pos 6379)
  redis_db ← number env "REDIS_DB" (pos 0)
  smtp_port ← number env "SMTP_PORT" (pos 587)
  webhook_timeout ← number env "WEBHOOK_TIMEOUT" (pos 30)
  grpc_port ← number env "GRPC_PORT" (pos 9090)
  let aws_region = setting env "AWS_REGION" "us-east-1"
  loaded (record {
    port = port;
    log_level = setting env "LOG_LEVEL" "info";
    env = setting env "ENV" "development";
    db_host = setting env "DB_HOST" "localhost";
    db_port = db_port;
    db_user = setting env "DB_USER" "lalithlochan";
    db_password = env "DB_PASSWORD";
    db_name = setting env "DB_NAME" "nimbus";
    db_ssl_mode = setting env "DB_SSLMODE" "disable";
    redis_host = setting env "REDIS_HOST" "localhost";
    redis_port = redis_port;
    redis_password = env "REDIS_PASSWORD";
    redis_db = redis_db;
    sqs_region = setting env "SQS_REGION" aws_region;
    sqs_queue_url = env "SQS_QUEUE_URL";
    sqs_dlq_url = env "SQS_DLQ_URL";
    smtp_host = setting env "SMTP_HOST" "localhost";
    smtp_port = smtp_port;
    smtp_username = env "SMTP_USERNAME";
    smtp_password = env "SMTP_PASSWORD";
    smtp_from = setting env "SMTP_FROM" "noreply@nimbus.local";
    aws_region = aws_region;
    ses_from_email = setting env "SES_FROM_EMAIL" "noreply@nimbus.local";
    sns_region = setting env "SNS_REGION" aws_region;
    webhook_timeout = webhook_timeout;
    ai_enabled = not (str_eq (env "OPENAI_API_KEY") "");
    openai_api_key = env "OPENAI_API_KEY";
    openai_model = setting env "OPENAI_MODEL" "gpt-4o-mini";
    grpc_port = grpc_port;
    grpc_auth_tokens = auth_tokens (env "GRPC_AUTH_TOKENS");
  })
