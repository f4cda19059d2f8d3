-- ===== src/Backups.antt =====
-- internal/backup/backup.go: the files of backups, by app and service. Tree reads the directories
-- and Prune deletes in them.
pub mod Filter
pub mod Names
pub mod Tree
pub mod Prune
use infra_shelf.Common.{
  ℕ, Bytes, Bool, true, false, ◌&&◌, ◌||◌, not, List, [], ◌∷◌, Option, none, some, is_some,
  if◌then◌else◌,
}
use infra_shelf.Common.Text.{codes, is_empty, str_eq, has_prefix, has_suffix}
use infra_shelf.Common.Dict.{Dict, lookup}

-- The path is a text here, and the time of the change a number.
pub record File : Type 0 where
  pub app : Bytes
  pub service : Bytes
  pub name : Bytes
  pub path : Bytes
  pub size : ℕ
  pub modified : ℕ

-- Days and counts that are not positive are 0.
pub record PruneOptions : Type 0 where
  pub app_name : Bytes
  pub all : Bool
  pub services : List Bytes
  pub keep_days : ℕ
  pub keep_count : ℕ

-- `DetectService`: the first case that fits, and the empty text for none.
unfoldable pub detect_service : Bytes → Bytes
detect_service name =
    if has_prefix name (codes "postgres_") && has_suffix name (codes ".sql")
    then codes "postgres"
    else if has_prefix name (codes "redis_") && has_suffix name (codes ".json")
    then codes "redis"
    else if has_prefix name (codes "rabbitmq_") && has_suffix name (codes ".json")
    then codes "rabbitmq"
    else if has_prefix name (codes "aistor_") && has_suffix name (codes ".tar")
    then codes "aistor"
    else if has_prefix name (codes "mongodb_") && has_suffix name (codes ".archive")
    then codes "mongodb"
    else []

-- `Filter`: an empty app or service is no constraint.
pub filter_files : List File → Bytes → Bytes → List File
filter_files [] app service = []
filter_files (f ∷ files) app service =
    let rest = filter_files files app service in
    if not (is_empty app) && not (str_eq f.app app)
    then rest
    else if not (is_empty service) && not (str_eq f.service service)
    then rest
    else f ∷ rest

-- `Diff`: the files whose path is not in the snapshot.
pub diff : Dict File → List File → List File
diff before [] = []
diff before (f ∷ after) =
    let rest = diff before after in if is_some (lookup f.path before) then rest else f ∷ rest
