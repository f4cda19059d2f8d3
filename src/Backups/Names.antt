-- ===== src/Backups/Names.antt =====
-- The names that the engine gives backup files are told apart by `DetectService`.
use infra_shelf.Common.{Bytes, true, false, ◌++◌, ◌≡◌, refl}
use infra_shelf.Common.Text.{codes, has_prefix, has_suffix}
use infra_shelf.Registry.{
  ServiceName, postgres, redis, rabbitmq, aistor, mongodb, signoz, service_string,
}
use infra_shelf.Engine.{non_backupable_names}
use infra_shelf.Engine.Backup.{file_name}
use infra_shelf.Common.Text.Suffix.{has_suffix-append}
use infra_shelf.Backups.{detect_service}

file_name_suffix :
    (s : ServiceName) (ts ext : Bytes)
    → has_suffix ext ext ≡ true
    → has_suffix (service_string s ++ (codes "_" ++ (ts ++ ext))) ext ≡ true
file_name_suffix s ts ext h =
    has_suffix-append (service_string s) _ ext
      (has_suffix-append (codes "_") _ ext (has_suffix-append ts ext ext h))

-- `DetectService` of internal/backup finds the service in the name that the engine gives the file of
-- a backup of a service that can be backed up, at any time.
pub detect_service-file_name_backup :
    (s : ServiceName) (ts : Bytes)
    → non_backupable_names s ≡ false
    → detect_service (file_name s ts) ≡ service_string s
unfolding detect_service file_name has_prefix has_suffix
detect_service-file_name_backup postgres ts h =
    rw (file_name_suffix postgres ts (codes ".sql") refl) refl
detect_service-file_name_backup redis ts h =
    rw (file_name_suffix redis ts (codes ".json") refl) refl
detect_service-file_name_backup rabbitmq ts h =
    rw (file_name_suffix rabbitmq ts (codes ".json") refl) refl
detect_service-file_name_backup aistor ts h =
    rw (file_name_suffix aistor ts (codes ".tar") refl) refl
detect_service-file_name_backup mongodb ts h =
    rw (file_name_suffix mongodb ts (codes ".archive") refl) refl
detect_service-file_name_backup signoz ts h = absurd (cc h)
