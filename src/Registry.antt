-- ===== src/Registry.antt =====
-- internal/registry/registry.go: the services, the configuration that an app has for each, and
-- the registry of apps. The children hold the operations.
pub mod Names
pub mod Coerced
pub mod Store
pub mod Storage
pub mod Dotenv
pub mod Env
pub mod Listing
use infra_shelf.Common.{
  ℕ, Bytes, Option, none, some, Bool, true, false, is_some, List, [], ◌∷◌, ◌≡◌, refl, ◌≢◌, arith,
}
use infra_shelf.Common.Text.{codes, str_eq}
use infra_shelf.Common.Dict.{Dict}
use infra_shelf.Common.{if◌then◌else◌}

pub data ServiceName : Type 0 where
  postgres redis rabbitmq aistor mongodb signoz : ServiceName

-- The string of a `ServiceName`.
abbrev pub service_string : ServiceName → Bytes
service_string postgres = codes "postgres"
service_string redis = codes "redis"
service_string rabbitmq = codes "rabbitmq"
service_string aistor = codes "aistor"
service_string mongodb = codes "mongodb"
service_string signoz = codes "signoz"

-- The lookup `ValidServices[value]`, and the string of each case of a `switch svc`.
unfoldable pub valid_services : Bytes → Option ServiceName
unfolding str_eq
valid_services value =
    if str_eq value (codes "postgres")
    then some postgres
    else if str_eq value (codes "redis")
    then some redis
    else if str_eq value (codes "rabbitmq")
    then some rabbitmq
    else if str_eq value (codes "aistor")
    then some aistor
    else if str_eq value (codes "mongodb")
    then some mongodb
    else if str_eq value (codes "signoz")
    then some signoz
    else none

abbrev pub service_catalog : List ServiceName
service_catalog = postgres ∷ redis ∷ rabbitmq ∷ aistor ∷ mongodb ∷ signoz ∷ []

abbrev pub service_labels : ServiceName → Bytes
service_labels postgres = codes "PostgreSQL"
service_labels redis = codes "Redis"
service_labels rabbitmq = codes "RabbitMQ"
service_labels aistor = codes "AIStor"
service_labels mongodb = codes "MongoDB"
service_labels signoz = codes "SignOz"

abbrev pub non_backupable_services : ServiceName → Bool
non_backupable_services signoz = true
non_backupable_services _ = false

abbrev pub addons : ServiceName → Bool
addons signoz = true
addons _ = false

pub record PostgresConfig : Type 0 where
  pub database : Bytes
  pub username : Bytes
  pub password : Bytes

pub record RedisConfig : Type 0 where
  pub username : Bytes
  pub password : Bytes
  pub prefix : Bytes

pub record RabbitMqConfig : Type 0 where
  pub vhost : Bytes
  pub username : Bytes
  pub password : Bytes

pub record AiStorConfig : Type 0 where
  pub bucket : Bytes
  pub access_key : Bytes
  pub secret_key : Bytes
  pub endpoint : Bytes

pub record MongoDbConfig : Type 0 where
  pub database : Bytes
  pub username : Bytes
  pub password : Bytes

pub record SignozConfig : Type 0 where
  pub service_name : Bytes
  pub environment : Bytes

-- A nil pointer is `none`.
pub record Services : Type 0 where
  pub postgres_config : Option PostgresConfig
  pub redis_config : Option RedisConfig
  pub rabbitmq_config : Option RabbitMqConfig
  pub aistor_config : Option AiStorConfig
  pub mongodb_config : Option MongoDbConfig
  pub signoz_config : Option SignozConfig

abbrev pub empty_services : Services
empty_services = record {
  postgres_config = none;
  redis_config = none;
  rabbitmq_config = none;
  aistor_config = none;
  mongodb_config = none;
  signoz_config = none;
}

pub record AppEntry : Type 0 where
  pub created_at : Bytes
  pub environment : Bytes
  pub signoz_service_name : Bytes
  pub services : Services

pub record Registry : Type 0 where
  pub version : ℕ
  pub apps : Dict AppEntry

pub record App : Type 0 where
  pub name : Bytes
  pub created_at : Bytes
  pub entry : AppEntry

-- `hasService`: the `switch` over the services.
unfoldable pub attached : Services → ServiceName → Bool
attached s postgres = is_some s.postgres_config
attached s redis = is_some s.redis_config
attached s rabbitmq = is_some s.rabbitmq_config
attached s aistor = is_some s.aistor_config
attached s mongodb = is_some s.mongodb_config
attached s signoz = is_some s.signoz_config

-- The name of a service is the one that `ValidServices` finds by its string.
pub valid_services-service_string : (s : ServiceName) → valid_services (service_string s) ≡ some s
unfolding valid_services
valid_services-service_string postgres = refl
valid_services-service_string redis = refl
valid_services-service_string rabbitmq = refl
valid_services-service_string aistor = refl
valid_services-service_string mongodb = refl
valid_services-service_string signoz = refl
