-- ===== src/Engine.antt =====
-- internal/shelfcore: engine.go and services.go. The engine keeps the registry in a `Storage` and
-- runs on the `Machine`; what it reports is kept as the values that the messages are made of.
pub mod Coerced
pub mod Attached
pub mod Provision
pub mod Targets
pub mod Setup
pub mod Add
pub mod Remove
pub mod Backup
pub mod Restore
use infra_shelf.Common.{
  ℕ, Bytes, Bool, true, false, is_some, List, [], ◌∷◌, ◌++◌, Option, none, some, Result, ok, err,
  Error, no_services, unknown_service, non_backupable, container_not_running, if◌then◌else◌,
}
use infra_shelf.Common.Text.{codes, elem}
use infra_shelf.Registry.{
  ServiceName, postgres, redis, rabbitmq, aistor, mongodb, signoz, service_string, valid_services,
  PostgresConfig, RedisConfig, RabbitMqConfig, AiStorConfig, MongoDbConfig, SignozConfig, Services,
  AppEntry, Registry, attached,
}
use infra_shelf.Registry.Storage.{Storage}
use infra_shelf.Registry.Store.{FilePath}
use infra_shelf.Machine.{Host, Machine, M, pure, fail, ◌>>=◌, ◌>>◌, is_running}
use infra_shelf.Services.Aistor
use infra_shelf.Services.Mongodb
use infra_shelf.Services.Postgres
use infra_shelf.Services.Rabbitmq
use infra_shelf.Services.Redis
use infra_shelf.Services.Redis.Restore as Replay
use infra_shelf.Services.Signoz

-- The configuration of a service: the `any` that `provisionService` returns.
abbrev pub Config : ServiceName → Type 0
Config postgres = PostgresConfig
Config redis = RedisConfig
Config rabbitmq = RabbitMqConfig
Config aistor = AiStorConfig
Config mongodb = MongoDbConfig
Config signoz = SignozConfig

abbrev pub service_container : ServiceName → Bytes
service_container postgres = Postgres.container
service_container redis = Redis.container
service_container rabbitmq = Rabbitmq.container
service_container aistor = Aistor.container
service_container mongodb = Mongodb.container
service_container signoz = codes "infra-signoz-otel-collector"

-- `serviceContainer[svc]`: an unknown service has no container, the empty text.
abbrev pub container_of : Bytes → Bytes
container_of svc = elim (valid_services svc) [ none ↦ [] | some s ↦ service_container s ]

abbrev pub non_backupable_names : ServiceName → Bool
non_backupable_names signoz = true
non_backupable_names _ = false

abbrev pub detachable_names : ServiceName → Bool
detachable_names signoz = true
detachable_names _ = false

abbrev pub detachable : Bytes → Bool
detachable svc = elim (valid_services svc) [ none ↦ false | some s ↦ detachable_names s ]

unfoldable pub set_service_config : (s : ServiceName) → Config s → Services → Services
set_service_config postgres c r = record r { postgres_config = some c }
set_service_config redis c r = record r { redis_config = some c }
set_service_config rabbitmq c r = record r { rabbitmq_config = some c }
set_service_config aistor c r = record r { aistor_config = some c }
set_service_config mongodb c r = record r { mongodb_config = some c }
set_service_config signoz c r = record r { signoz_config = some c }

unfoldable pub clear_service_config : ServiceName → Services → Services
clear_service_config postgres r = record r { postgres_config = none }
clear_service_config redis r = record r { redis_config = none }
clear_service_config rabbitmq r = record r { rabbitmq_config = none }
clear_service_config aistor r = record r { aistor_config = none }
clear_service_config mongodb r = record r { mongodb_config = none }
clear_service_config signoz r = record r { signoz_config = none }

-- `hasService` of the engine, on the string of a service.
abbrev pub has_service : AppEntry → Bytes → Bool
has_service entry svc = elim (valid_services svc) [
  | none ↦ false
  | some s ↦ attached entry.services s
]

pub record ProvisionOptions : Type 0 where
  pub full_access : Bool
  pub signoz_service_name : Bytes
  pub signoz_environment : Bytes

-- What the reporter is told.
pub data Report : Type 0 where
  provisioned : Bytes → Bytes → Report
  provision_failed : Bytes → Bytes → Error → Report
  already_provisioned : Bytes → Bytes → Report
  nothing_to_do : Bytes → Report
  not_attached : Bytes → Bytes → Report
  detached : Bytes → Bytes → Report
  teardown_failed : Bytes → Error → Report
  removed_resources removed_app : Bytes → Report
  not_running : Bytes → Bytes → Report
  backup_failed : Bytes → Error → Report
  backed_up : Bytes → Bytes → Report
  no_apps : Report
  backing_up : Bytes → Report
  app_failed : Error → Report
  no_backup : Bytes → Report
  restored : Bytes → Report
  restore_failed : Bytes → Error → Report
  ensured : Bytes → Bytes → Report
  ensure_failed : Bytes → Bytes → Error → Report

module _ (h : Host) where
  -- The first service whose container is not running.
  unfoldable pub container_check : List Bytes → Machine → Result (Unit {0})
  container_check [] m = ok tt
  container_check (svc ∷ rest) m =
      if is_running h m (container_of svc)
      then container_check rest m
      else err (container_not_running svc)

  unfoldable pub provision_service : (s : ServiceName) → Bytes → ProvisionOptions → M (Config s)
  provision_service postgres app_name opts = Postgres.provision h app_name
  provision_service redis app_name opts = Redis.provision h app_name opts.full_access
  provision_service rabbitmq app_name opts = Rabbitmq.provision h app_name
  provision_service aistor app_name opts = Aistor.provision h app_name
  provision_service mongodb app_name opts = Mongodb.provision h app_name
  provision_service signoz app_name opts =
      pure (Signoz.provision h app_name opts.signoz_service_name opts.signoz_environment)

  unfoldable pub teardown_service : ServiceName → Bytes → M (Unit {0})
  teardown_service postgres app_name = Postgres.teardown h app_name
  teardown_service redis app_name = Redis.teardown h app_name
  teardown_service rabbitmq app_name = Rabbitmq.teardown h app_name
  teardown_service aistor app_name = Aistor.teardown h app_name
  teardown_service mongodb app_name = Mongodb.teardown h app_name
  teardown_service signoz app_name = pure tt

  unfoldable pub run_backup : ServiceName → Bytes → FilePath → M (Unit {0})
  run_backup postgres app_name file = Postgres.backup h app_name file
  run_backup redis app_name file = Redis.backup h app_name file
  run_backup rabbitmq app_name file = Rabbitmq.backup h app_name file
  run_backup aistor app_name file = Aistor.backup h app_name file
  run_backup mongodb app_name file = Mongodb.backup h app_name file
  run_backup signoz app_name file = fail (non_backupable (service_string signoz))

  unfoldable pub run_restore : ServiceName → Bytes → FilePath → M (Unit {0})
  run_restore postgres app_name file = Postgres.restore h app_name file
  run_restore redis app_name file = Replay.restore h file
  run_restore rabbitmq app_name file = Rabbitmq.restore h file
  run_restore aistor app_name file = Aistor.restore h app_name file
  run_restore mongodb app_name file = Mongodb.restore h app_name file
  run_restore signoz app_name file = fail (unknown_service (service_string signoz))

-- The state of the engine: the registry file, the machine, and what was reported, in order.
pub record World (st : Storage) : Type 0 where
  pub storage : st.State
  pub machine : Machine
  pub reports : List Report

abbrev pub tell : {st : Storage} → Report → World st → World st
tell r w = record w { reports = w.reports ++ r ∷ [] }
