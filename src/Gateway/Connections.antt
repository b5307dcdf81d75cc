-- ===== src/Gateway/Connections.antt =====
-- cmd/gateway/main.go: what the constructors of the connections get from the configuration, with the
-- addresses that internal/db/postgres.go and internal/redis/client.go make of it.
use Prim.Native.String.{◌++◌}
use nimbus_app.Prelude.{◌+◌, String, str_eq, if◌then◌else◌}
use nimbus_app.Prelude.Int.{ℤ, pos, negsuc}
use nimbus_app.Prelude.Fallible.{decimal}
use nimbus_app.Settings.{Config}
use nimbus_app.Ai

-- What the constructors of the connections get.
pub record DbConfig : Type 0 where
  pub host : String
  pub port : ℤ
  pub user : String
  pub password : String
  pub database : String
  pub ssl_mode : String

pub record RedisConfig : Type 0 where
  pub host : String
  pub port : ℤ
  pub password : String
  pub db : ℤ

pub record SqsConfig : Type 0 where
  pub region : String
  pub queue_url : String
  pub dlq_url : String

abbrev pub db_config : Config → DbConfig
db_config cfg = record {
  host = cfg.db_host;
  port = cfg.db_port;
  user = cfg.db_user;
  password = cfg.db_password;
  database = cfg.db_name;
  ssl_mode = cfg.db_ssl_mode;
}

abbrev pub redis_config : Config → RedisConfig
redis_config cfg = record {
  host = cfg.redis_host;
  port = cfg.redis_port;
  password = cfg.redis_password;
  db = cfg.redis_db;
}

abbrev pub sqs_config : Config → SqsConfig
sqs_config cfg = record {
  region = cfg.sqs_region;
  queue_url = cfg.sqs_queue_url;
  dlq_url = cfg.sqs_dlq_url;
}

-- The zero values of the base URL and of the timeout stand for the client's defaults.
abbrev pub ai_config : Config → Ai.Config
ai_config cfg = record {
  api_key = cfg.openai_api_key;
  model = cfg.openai_model;
  base_url = "";
  timeout = 0;
}

-- The connection string of internal/db/postgres.go; `%d` of a port, with its sign.
abbrev pub integer : ℤ → String
integer (pos n) = decimal n
integer (negsuc n) = "-" ++ decimal (n + 1)

unfoldable pub dsn : DbConfig → String
dsn cfg =
    if str_eq cfg.password ""
    then "host="
      ++ cfg.host
      ++ " port="
      ++ integer cfg.port
      ++ " user="
      ++ cfg.user
      ++ " dbname="
      ++ cfg.database
      ++ " sslmode="
      ++ cfg.ssl_mode
    else "host="
      ++ cfg.host
      ++ " port="
      ++ integer cfg.port
      ++ " user="
      ++ cfg.user
      ++ " password="
      ++ cfg.password
      ++ " dbname="
      ++ cfg.database
      ++ " sslmode="
      ++ cfg.ssl_mode

-- `addr` of internal/redis/client.go
unfoldable pub redis_addr : RedisConfig → String
redis_addr cfg = cfg.host ++ ":" ++ integer cfg.port
