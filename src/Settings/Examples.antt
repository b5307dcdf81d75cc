-- ===== src/Settings/Examples.antt =====
-- Environments of internal/config/config.go.
use nimbus_app.Prelude.{some, ◌≡◌, refl, false, [], ◌∷◌, str_eq, if◌then◌else◌}
use nimbus_app.Prelude.Int.{pos, negsuc}
use nimbus_app.Rpc.{answer, extract_and_validate}
use nimbus_app.Settings.{Config, Environment, loaded, invalid, load}
use nimbus_app.Settings.Texts.{
  parsed, num_error, syntax_error, range_error, atoi, digits_from, auth_tokens, dev_token,
  dev_tenant, set_pairs, set_token, split_from,
}
use nimbus_app.Settings.Split.{mentions}
use nimbus_app.Settings.Tokens.{last_for, tokens_authenticate}

abbrev bad_port : Environment
bad_port name = if str_eq name "DB_PORT" then "54x" else ""

names_the_variable : load bad_port ≡ invalid "DB_PORT" syntax_error
unfolding load atoi digits_from
names_the_variable = refl

reads_a_sign : atoi "-80" ≡ parsed (negsuc 79)
unfolding atoi digits_from
reads_a_sign = refl

stays_in_range : atoi "9223372036854775808" ≡ num_error range_error
unfolding atoi digits_from
stays_in_range = refl

takes_no_third_part : auth_tokens "a:b:c,d:e" ≡ (dev_token, dev_tenant) ∷ ("d", "e") ∷ []
unfolding auth_tokens set_pairs set_token split_from
takes_no_third_part = refl

abbrev with_tokens : Environment
with_tokens name = if str_eq name "GRPC_AUTH_TOKENS" then "s3cret:7,other:8" else ""

abbrev tokened : Config
tokened = record {
  port = pos 8080;
  log_level = "info";
  env = "development";
  db_host = "localhost";
  db_port = pos 5432;
  db_user = "lalithlochan";
  db_password = "";
  db_name = "nimbus";
  db_ssl_mode = "disable";
  redis_host = "localhost";
  redis_port = pos 6379;
  redis_password = "";
  redis_db = pos 0;
  sqs_region = "us-east-1";
  sqs_queue_url = "";
  sqs_dlq_url = "";
  smtp_host = "localhost";
  smtp_port = pos 587;
  smtp_username = "";
  smtp_password = "";
  smtp_from = "noreply@nimbus.local";
  aws_region = "us-east-1";
  ses_from_email = "noreply@nimbus.local";
  sns_region = "us-east-1";
  webhook_timeout = pos 30;
  ai_enabled = false;
  openai_api_key = "";
  openai_model = "gpt-4o-mini";
  grpc_port = pos 9090;
  grpc_auth_tokens = (dev_token, dev_tenant) ∷ ("s3cret", "7") ∷ ("other", "8") ∷ [];
}

loads : load with_tokens ≡ loaded tokened
unfolding load auth_tokens set_pairs set_token split_from
loads = refl

tokens_authenticate_example :
    extract_and_validate tokened.grpc_auth_tokens (some ("Bearer dev-token-nimbus" ∷ []))
    ≡ answer dev_tenant
unfolding last_for mentions
tokens_authenticate_example =
    tokens_authenticate with_tokens tokened (("s3cret", "7") ∷ ("other", "8") ∷ [])
      "dev-token-nimbus" [] ((refl, refl, refl, refl), ((refl, refl, refl, refl), tt)) refl loads
      (refl, refl)
