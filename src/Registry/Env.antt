-- ===== src/Registry/Env.antt =====
-- internal/registry/registry.go: the .env blocks of an app (`EnvBlocks`, `EnvFile`).
pub mod ReadBack
use infra_shelf.Common.{
  ℕ, Bytes, Bool, true, false, ◌||◌, List, [], ◌∷◌, ◌++◌, Option, none, some, ltb, leb, ◌==◌, ◌/◌,
  ◌%◌, ◌+◌, ◌-◌, ◌&&◌, if◌then◌else◌,
}
use infra_shelf.Common.Text.{codes, join}
use infra_shelf.Registry.{
  PostgresConfig, RedisConfig, RabbitMqConfig, AiStorConfig, MongoDbConfig, SignozConfig, Services,
  App,
}
use infra_shelf.Registry.Names.{is_lower, is_digit}

abbrev newline : Bytes
newline = b'\n' ∷ []

-- `url.PathEscape` of net/url: the bytes that stand for themselves in a path segment.
abbrev path_safe : ℕ → Bool
path_safe c =
    is_lower c
    || (leb b'A' c && leb c b'Z')
    || is_digit c
    || c == b'-'
    || c == b'_'
    || c == b'.'
    || c == b'~'
    || c == b'$'
    || c == b'&'
    || c == b'+'
    || c == b'='
    || c == b':'
    || c == b'@'

unfoldable pub hex_digit : ℕ → ℕ
hex_digit n = if ltb n 10 then b'0' + n else b'A' + n - 10

unfoldable pub path_escape : Bytes → Bytes
unfolding hex_digit
path_escape [] = []
path_escape (c ∷ s) =
    let rest = path_escape s in
    if path_safe c then c ∷ rest else b'%' ∷ hex_digit (c / 16) ∷ hex_digit (c % 16) ∷ rest

postgres_lines : PostgresConfig → List Bytes
postgres_lines cfg =
    codes "# === PostgreSQL ==="
    ∷ (codes "DATABASE_URL=postgres://"
        ++ (cfg.username
            ++ (codes ":" ++ (cfg.password ++ (codes "@postgres:5432/" ++ cfg.database)))))
    ∷ codes "DB_HOST=postgres"
    ∷ codes "DB_PORT=5432"
    ∷ (codes "DB_USERNAME=" ++ cfg.username)
    ∷ (codes "DB_PASSWORD=" ++ cfg.password)
    ∷ (codes "DB_NAME=" ++ cfg.database)
    ∷ []

unfoldable pub postgres_env : PostgresConfig → Bytes
unfolding postgres_lines
postgres_env cfg = join (postgres_lines cfg) newline

redis_lines : RedisConfig → List Bytes
redis_lines cfg =
    codes "# === Redis ==="
    ∷ (codes "REDIS_URL=redis://"
        ++ (cfg.username ++ (codes ":" ++ (cfg.password ++ codes "@redis:6379/0"))))
    ∷ codes "REDIS_HOST=redis"
    ∷ codes "REDIS_PORT=6379"
    ∷ (codes "REDIS_USERNAME=" ++ cfg.username)
    ∷ (codes "REDIS_PASSWORD=" ++ cfg.password)
    ∷ (codes "REDIS_PREFIX=" ++ cfg.prefix)
    ∷ []

unfoldable pub redis_env : RedisConfig → Bytes
unfolding redis_lines
redis_env cfg = join (redis_lines cfg) newline

rabbitmq_lines : RabbitMqConfig → List Bytes
unfolding path_escape
rabbitmq_lines cfg =
    codes "# === RabbitMQ ==="
    ∷ (codes "AMQP_URL=amqp://"
        ++ (cfg.username
            ++ (codes ":" ++ (cfg.password ++ (codes "@rabbitmq:5672/" ++ path_escape cfg.vhost)))))
    ∷ codes "RABBITMQ_HOST=rabbitmq"
    ∷ codes "RABBITMQ_PORT=5672"
    ∷ (codes "RABBITMQ_USERNAME=" ++ cfg.username)
    ∷ (codes "RABBITMQ_PASSWORD=" ++ cfg.password)
    ∷ (codes "RABBITMQ_VHOST=" ++ cfg.vhost)
    ∷ []

unfoldable pub rabbitmq_env : RabbitMqConfig → Bytes
unfolding rabbitmq_lines
rabbitmq_env cfg = join (rabbitmq_lines cfg) newline

signoz_attrs : SignozConfig → Bytes
signoz_attrs cfg =
    codes "service.name="
    ++ (cfg.service_name
        ++ (codes ",service.namespace=infra-shelf,deployment.environment=" ++ cfg.environment))

signoz_lines : SignozConfig → List Bytes
unfolding signoz_attrs
signoz_lines cfg =
    codes "# === SignOz (OpenTelemetry) ==="
    ∷ codes "OTEL_EXPORTER_OTLP_ENDPOINT=http://signoz-otel-collector:4317"
    ∷ codes "OTEL_EXPORTER_OTLP_PROTOCOL=grpc"
    ∷ (codes "OTEL_SERVICE_NAME=" ++ cfg.service_name)
    ∷ (codes "OTEL_RESOURCE_ATTRIBUTES=" ++ signoz_attrs cfg)
    ∷ codes "OTEL_TRACES_EXPORTER=otlp"
    ∷ codes "OTEL_METRICS_EXPORTER=otlp"
    ∷ codes "OTEL_LOGS_EXPORTER=otlp"
    ∷ []

unfoldable pub signoz_env : SignozConfig → Bytes
unfolding signoz_lines
signoz_env cfg = join (signoz_lines cfg) newline

aistor_lines : AiStorConfig → List Bytes
aistor_lines cfg =
    codes "# === AIStor (S3) ==="
    ∷ (codes "S3_ENDPOINT=" ++ cfg.endpoint)
    ∷ (codes "S3_BUCKET=" ++ cfg.bucket)
    ∷ codes "S3_REGION=us-east-1"
    ∷ (codes "S3_ACCESS_KEY_ID=" ++ cfg.access_key)
    ∷ (codes "S3_SECRET_ACCESS_KEY=" ++ cfg.secret_key)
    ∷ codes "S3_FORCE_PATH_STYLE=true"
    ∷ (codes "AWS_ENDPOINT_URL=" ++ cfg.endpoint)
    ∷ (codes "AWS_ACCESS_KEY_ID=" ++ cfg.access_key)
    ∷ (codes "AWS_SECRET_ACCESS_KEY=" ++ cfg.secret_key)
    ∷ codes "AWS_REGION=us-east-1"
    ∷ []

unfoldable pub aistor_env : AiStorConfig → Bytes
unfolding aistor_lines
aistor_env cfg = join (aistor_lines cfg) newline

mongodb_lines : MongoDbConfig → List Bytes
mongodb_lines cfg =
    codes "# === MongoDB ==="
    ∷ (codes "MONGODB_URL=mongodb://"
        ++ (cfg.username
            ++ (codes ":"
                ++ (cfg.password
                    ++ (codes "@mongodb:27017/"
                        ++ (cfg.database ++ (codes "?authSource=" ++ cfg.database)))))))
    ∷ codes "MONGODB_HOST=mongodb"
    ∷ codes "MONGODB_PORT=27017"
    ∷ (codes "MONGODB_USERNAME=" ++ cfg.username)
    ∷ (codes "MONGODB_PASSWORD=" ++ cfg.password)
    ∷ (codes "MONGODB_DATABASE=" ++ cfg.database)
    ∷ []

unfoldable pub mongodb_env : MongoDbConfig → Bytes
unfolding mongodb_lines
mongodb_env cfg = join (mongodb_lines cfg) newline

pub record EnvBlock : Type 0 where
  pub service : Bytes
  pub body : Bytes

-- `if cfg := …; cfg != nil { blocks = append(blocks, …) }`
abbrev pub block : {C : Type 0} → Bytes → (C → Bytes) → Option C → List EnvBlock → List EnvBlock
block label env none rest = rest
block label env (some cfg) rest = record { service = label; body = env cfg } ∷ rest

unfoldable pub env_blocks : App → List EnvBlock
env_blocks a =
    let s = a.entry.services in
    block (codes "PostgreSQL") postgres_env s.postgres_config (
      block (codes "Redis") redis_env s.redis_config (
        block (codes "RabbitMQ") rabbitmq_env s.rabbitmq_config (
          block (codes "AIStor") aistor_env s.aistor_config (
            block (codes "MongoDB") mongodb_env s.mongodb_config
              (block (codes "SignOz") signoz_env s.signoz_config [])))))

abbrev pub bodies : List EnvBlock → List Bytes
bodies [] = []
bodies (b ∷ bs) = b.body ∷ bodies bs

unfoldable pub env_file : App → Bytes
unfolding env_blocks
env_file a = join (bodies (env_blocks a)) (b'\n' ∷ b'\n' ∷ [])
