-- ===== src/Registry/Listing.antt =====
-- internal/registry/registry.go: what the pages of the web server show of an app.
pub mod Infos
use infra_shelf.Common.{
  ℕ, Bytes, Bool, true, false, ◌&&◌, not, List, [], ◌∷◌, ◌++◌, map, filter, Option, none, some,
  is_some, Result, ok, err, if◌then◌else◌, ◌>>=◌,
}
use infra_shelf.Common.Text.{codes}
use infra_shelf.Common.Dict.{Dict, insert, lookup, value_of}
use infra_shelf.Registry.{
  ServiceName, postgres, redis, rabbitmq, aistor, mongodb, signoz, service_string, service_catalog,
  service_labels, non_backupable_services, addons, attached, valid_services, AppEntry, Registry,
  App,
}
use infra_shelf.Registry.Env.{EnvBlock, env_blocks}

-- A dash in UTF-8.
abbrev dash : Bytes
dash = 226 ∷ 128 ∷ 148 ∷ []

pub service_backup_how : ServiceName → Bytes
service_backup_how postgres =
    codes "pg_dump --clean --if-exists of the dedicated database "
    ++ (dash
        ++ (codes " captures schema + data; restore is a drop-and-reimport " ++ codes "via psql."))
service_backup_how redis =
    codes "Logical snapshot via Lua: iterates KEYS '<app>:*' and "
    ++ (codes "serializes strings/hashes/lists/sets/zsets to JSON; "
        ++ codes "restore rewrites the keys.")
service_backup_how rabbitmq =
    codes "rabbitmqctl export_definitions filtered by vhost "
    ++ (dash
        ++ (codes " definitions only "
            ++ (codes "(queues/exchanges/bindings/policies/users). In-flight "
                ++ codes "messages are NOT saved.")))
service_backup_how aistor =
    codes "mc mirror local/<bucket> to a temp directory + tar "
    ++ (codes "streaming "
        ++ (dash
            ++ (codes " preserves every object. Restore extracts the tar and "
                ++ (codes "runs mc mirror --overwrite --remove to match the snapshot "
                    ++ codes "state."))))
service_backup_how mongodb =
    codes "mongodump --archive --gzip of the dedicated database "
    ++ (dash
        ++ (codes " captures collections, documents and indexes. Restore is "
            ++ codes "a drop-and-reimport via mongorestore --drop."))
service_backup_how signoz =
    codes "No per-app backup "
    ++ (dash
        ++ (codes " telemetry lives in the shared ClickHouse and expires via "
            ++ codes "the SignOz retention policy."))

pub service_restore_note : ServiceName → Bytes
service_restore_note postgres =
    codes "psql -d <app> reimports the dump; ownership and "
    ++ codes "privileges are reapplied to the app's role."
service_restore_note redis =
    codes "Reads the JSON and applies SET/HSET/RPUSH/SADD/ZADD per "
    ++ codes "key; does not delete keys absent from the snapshot."
service_restore_note rabbitmq =
    codes "rabbitmqctl import_definitions recreates the vhost's " ++ codes "objects (idempotent)."
service_restore_note aistor =
    codes "Overwrites the entire bucket with the tar contents "
    ++ (codes "(--remove deletes objects that disappeared between the " ++ codes "snapshots).")
service_restore_note mongodb =
    codes "mongorestore --archive --gzip --drop reimports the "
    ++ (codes "database; each snapshot collection is dropped and "
        ++ (codes "recreated (idempotent). The app's user is reapplied by "
            ++ codes "reconcile, not by restore."))
service_restore_note signoz = dash

pub service_backup_glob : ServiceName → Bytes
service_backup_glob postgres = codes "postgres_<ts>.sql"
service_backup_glob redis = codes "redis_<ts>.json"
service_backup_glob rabbitmq = codes "rabbitmq_<ts>.json"
service_backup_glob aistor = codes "aistor_<ts>.tar"
service_backup_glob mongodb = codes "mongodb_<ts>.archive"
service_backup_glob signoz = []

pub record ServiceInfo : Type 0 where
  pub name : Bytes
  pub label : Bytes
  pub env_body : Bytes
  pub backup_glob : Bytes
  pub backup_how : Bytes
  pub restore_note : Bytes
  pub backupable : Bool
  pub is_addon : Bool

-- The entries are in the order of their names.
abbrev apps_of : Dict AppEntry → List App
apps_of [] = []
apps_of ((name, entry) ∷ rest) =
    record { name = name; created_at = entry.created_at; entry = entry } ∷ apps_of rest

-- `ListApps`, on what `Load` gives.
pub list_apps : Result Registry → Result (List App)
list_apps loaded = do reg ← loaded; ok (apps_of reg.apps)

missing_of : Bool → App → List ServiceName → List Bytes
missing_of addon a [] = []
missing_of addon a (s ∷ rest) =
    let later = missing_of addon a rest in
    if (if addon then not (addons s) else addons s)
    then later
    else if not (attached a.entry.services s)
    then service_string s ∷ later
    else later

pub missing_services : App → List Bytes
unfolding missing_of
missing_services a = missing_of false a service_catalog

pub missing_addons : App → List Bytes
unfolding missing_of
missing_addons a = missing_of true a service_catalog

block_map : Dict Bytes → List EnvBlock → Dict Bytes
block_map blocks [] = blocks
block_map blocks (b ∷ bs) = block_map (insert b.service b.body blocks) bs

-- One entry of the list of `buildServiceInfos`.
abbrev pub info_with : ServiceName → Bytes → ServiceInfo
info_with s body = record {
  name = service_string s;
  label = service_labels s;
  env_body = body;
  backup_glob = service_backup_glob s;
  backup_how = service_backup_how s;
  restore_note = service_restore_note s;
  backupable = not (non_backupable_services s);
  is_addon = addons s;
}

infos_of : App → (ServiceName → Bool) → Dict Bytes → List ServiceName → List ServiceInfo
infos_of a predicate blocks [] = []
infos_of a predicate blocks (s ∷ rest) =
    let later = infos_of a predicate blocks rest in
    if not (attached a.entry.services s)
    then later
    else if not (predicate s)
    then later
    else info_with s (value_of (lookup (service_labels s) blocks)) ∷ later

pub build_service_infos : App → (ServiceName → Bool) → List ServiceInfo
unfolding block_map infos_of
build_service_infos a predicate = infos_of a predicate (block_map [] (env_blocks a)) service_catalog

pub service_infos : App → List ServiceInfo
service_infos a = build_service_infos a (λ s. not (addons s))

pub addon_infos : App → List ServiceInfo
addon_infos a = build_service_infos a addons

abbrev name_if : {C : Type 0} → Option C → ServiceName → List Bytes → List Bytes
name_if none s rest = rest
name_if (some c) s rest = service_string s ∷ rest

pub service_names : App → List Bytes
service_names a =
    let r = a.entry.services in
    name_if r.postgres_config postgres (
      name_if r.redis_config redis (
        name_if r.rabbitmq_config rabbitmq (
          name_if r.aistor_config aistor
            (name_if r.mongodb_config mongodb (name_if r.signoz_config signoz [])))))

-- `nonBackupable[ServiceName(n)]`
abbrev non_backupable_name : Option ServiceName → Bool
non_backupable_name none = false
non_backupable_name (some s) = non_backupable_services s

pub backupable_service_names : App → List Bytes
unfolding service_names
backupable_service_names a =
    filter (λ n. not (non_backupable_name (valid_services n))) (service_names a)
