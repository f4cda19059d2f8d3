-- ===== src/Engine/Backup.antt =====
-- internal/shelfcore/backup.go
pub mod Chosen
pub mod Sorted
use infra_shelf.Common.{
  Bytes, Bool, ◌&&◌, not, List, [], ◌∷◌, ◌++◌, Result, ok, err, no_matching_services, filter, ◌>>=◌,
  ◌>>◌, if◌then◌else◌,
}
use infra_shelf.Common.Text.{codes, elem}
use infra_shelf.Common.Order.{str_lt}
use infra_shelf.Common.Dict.{keys}
use infra_shelf.Registry.{
  ServiceName, postgres, redis, rabbitmq, aistor, mongodb, signoz, AppEntry, Registry, attached,
  service_string,
}
use infra_shelf.Registry.Names.{validate_app_name}
use infra_shelf.Registry.Storage.{Storage}
use infra_shelf.Registry.Store.{FilePath}
use infra_shelf.Machine.{Host, is_running, remove}
use infra_shelf.Engine.{
  World, tell, service_container, non_backupable_names, run_backup, not_running, backup_failed,
  backed_up, no_apps, backing_up, app_failed,
}
use infra_shelf.Engine.Remove.{ordered_services, entry_of}

abbrev pub service_ext : ServiceName → Bytes
service_ext postgres = codes "sql"
service_ext redis = codes "json"
service_ext rabbitmq = codes "json"
service_ext aistor = codes "tar"
service_ext mongodb = codes "archive"
service_ext signoz = []

pub record BackupFile : Type 0 where
  pub app : Bytes
  pub service : Bytes
  pub path : FilePath

-- Attached and backupable.
abbrev pub provisioned_here : AppEntry → ServiceName → Bool
provisioned_here entry s = attached entry.services s && not (non_backupable_names s)

abbrev pub requested_only : List Bytes → List ServiceName → List ServiceName
requested_only [] provisioned = provisioned
requested_only (r ∷ rs) provisioned = filter (λ s. elem (service_string s) (r ∷ rs)) provisioned

unfoldable pub choose_backup_services : AppEntry → List Bytes → List ServiceName
choose_backup_services entry requested =
    requested_only requested (filter (provisioned_here entry) ordered_services)

-- `fmt.Sprintf("%s_%s.%s", svc, ts, serviceExt[svc])`
unfoldable pub file_name : ServiceName → Bytes → Bytes
file_name s ts = service_string s ++ (codes "_" ++ (ts ++ (codes "." ++ service_ext s)))

-- The inner loop of `sortStrings`: the element goes down to its place among the sorted ones.
insert_sorted : Bytes → List Bytes → List Bytes
insert_sorted x [] = x ∷ []
insert_sorted x (y ∷ ys) = if str_lt x y then x ∷ y ∷ ys else y ∷ insert_sorted x ys

sort_into : List Bytes → List Bytes → List Bytes
sort_into done [] = done
sort_into done (x ∷ xs) = sort_into (insert_sorted x done) xs

pub sort_strings : List Bytes → List Bytes
sort_strings s = sort_into [] s

abbrev some_targets : Bytes → List ServiceName → Result (List ServiceName)
some_targets app_name [] = err (no_matching_services app_name)
some_targets app_name (s ∷ ss) = ok (s ∷ ss)

module _ {st : Storage} (h : Host) (backups_dir : FilePath) where
  -- A failed dump is removed, so that nobody takes it for a backup.
  backup_outcome :
      Bytes
      → ServiceName
      → Bytes
      → FilePath
      → Result (Unit {0})
      → World st
      → List BackupFile × World st
  backup_outcome app_name s name path (err e) w =
      let (r, m) = remove path w.machine in
      ([], record (tell (backup_failed (service_string s) e) w) { machine = m })
  backup_outcome app_name s name path (ok u) w = (
    record { app = app_name; service = service_string s; path = path } ∷ [],
    tell (backed_up (service_string s) name) w,
  )

  backup_one : Bytes → Bytes → ServiceName → World st → List BackupFile × World st
  unfolding backup_outcome
  backup_one app_name ts s w =
      let name = file_name s ts in
      let path = name ∷ app_name ∷ backups_dir in
      let (r, m) = run_backup h s app_name path w.machine in
      let done = backup_outcome app_name s name path r (record w { machine = m }) in
      if is_running h w.machine (service_container s)
      then done
      else ([], tell (not_running (service_container s) (service_string s)) w)

  backup_loop : Bytes → Bytes → List ServiceName → World st → List BackupFile × World st
  unfolding backup_one
  backup_loop app_name ts [] w = ([], w)
  backup_loop app_name ts (s ∷ rest) w =
      let (out, w') = backup_one app_name ts s w in
      let (more, w'') = backup_loop app_name ts rest w' in (out ++ more, w'')

  pub backup_checks : Bytes → List Bytes → World st → Result (List ServiceName)
  backup_checks app_name services w = do
    validate_app_name app_name
    reg ← st.load w.storage
    entry ← entry_of app_name reg
    some_targets app_name (choose_backup_services entry services)

  backup_checked :
      Bytes → Result (List ServiceName) → World st → Result (List BackupFile) × World st
  unfolding backup_loop
  backup_checked app_name (err e) w = (err e, w)
  backup_checked app_name (ok targets) w =
      let (out, w') = backup_loop app_name (h.timestamp w.machine.calls) targets w in (ok out, w')

  pub backup_app : Bytes → List Bytes → World st → Result (List BackupFile) × World st
  unfolding backup_checked
  backup_app app_name services w = backup_checked app_name (backup_checks app_name services w) w

  -- An app that cannot be backed up is reported, and the others go on.
  add_files : List BackupFile → Result (List BackupFile) × World st → List BackupFile × World st
  add_files all (err e, w) = (all, tell (app_failed e) w)
  add_files all (ok files, w) = (all ++ files, w)

  backup_apps : List Bytes → List Bytes → List BackupFile → World st → List BackupFile × World st
  unfolding add_files
  backup_apps [] services all w = (all, w)
  backup_apps (name ∷ names) services all w =
      let (all', w') = add_files all (backup_app name services (tell (backing_up name) w)) in
      backup_apps names services all' w'

  backup_names : List Bytes → List Bytes → World st → List BackupFile × World st
  unfolding backup_apps
  backup_names [] services w = ([], tell no_apps w)
  backup_names (n ∷ ns) services w = backup_apps (sort_strings (n ∷ ns)) services [] w

  backup_all_loaded : Result Registry → List Bytes → World st → Result (List BackupFile) × World st
  unfolding backup_names
  backup_all_loaded (err e) services w = (err e, w)
  backup_all_loaded (ok reg) services w =
      let (all, w') = backup_names (keys reg.apps) services w in (ok all, w')

  pub backup_all : List Bytes → World st → Result (List BackupFile) × World st
  unfolding backup_all_loaded
  backup_all services w = backup_all_loaded (st.load w.storage) services w
