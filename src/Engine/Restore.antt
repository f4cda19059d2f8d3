-- ===== src/Engine/Restore.antt =====
-- internal/shelfcore/restore.go and reconcile.go
pub mod Names
use infra_shelf.Common.{
  Bytes, Bool, true, false, ◌&&◌, List, [], ◌∷◌, ◌++◌, Option, none, some, Result, ok, err, Error,
  is_some, backup_not_found, cannot_detect_service, container_not_running, not_exist, filter, ◌>>=◌,
  ◌>>◌, if◌then◌else◌,
}
use infra_shelf.Common.Text.{codes, has_prefix, is_empty}
use infra_shelf.Common.Order.{str_lt}
use infra_shelf.Common.Dict.{Dict, keys, lookup, insert}
use infra_shelf.Registry.{
  ServiceName, postgres, redis, rabbitmq, aistor, mongodb, signoz, AppEntry, Registry,
  RabbitMqConfig, MongoDbConfig, service_string,
}
use infra_shelf.Registry.Names.{validate_app_name}
use infra_shelf.Registry.Storage.{Storage}
use infra_shelf.Registry.Store.{FilePath}
use infra_shelf.Machine.{Host, Machine, M, is_running, read_dir, find_file}
use infra_shelf.Engine.{
  World, tell, service_container, run_restore, not_running, no_backup, restored, restore_failed,
  ensured, ensure_failed,
}
use infra_shelf.Engine.Backup.{choose_backup_services, sort_strings}
use infra_shelf.Engine.Remove.{entry_of}
use infra_shelf.Services.Mongodb
use infra_shelf.Services.Rabbitmq

-- `matching[0]` after the sort in descending order: the last name in the order of texts.
later_of : Bytes → Option Bytes → Option Bytes
later_of x none = some x
later_of x (some y) = if str_lt x y then some y else some x

last_name : List Bytes → Option Bytes
unfolding later_of
last_name [] = none
last_name (x ∷ xs) = later_of x (last_name xs)

-- The newest backup of a service among the files of the directory of the app, by their names.
latest_among : ServiceName → Option (List Bytes) → Option Bytes
unfolding last_name
latest_among s none = none
latest_among s (some names) =
    last_name (filter (λ n. has_prefix n (service_string s ++ codes "_")) names)

-- A directory that cannot be read has no backup.
unfoldable pub find_latest_backup : Host → FilePath → ServiceName → Machine → Option Bytes
unfolding latest_among
find_latest_backup h app_dir s m = latest_among s (read_dir h app_dir m)

pub record PlanEntry : Type 0 where
  pub service : ServiceName
  pub file : FilePath

-- The services whose files the loop of `detectService` looks for.
abbrev pub restorable : List ServiceName
restorable = postgres ∷ redis ∷ rabbitmq ∷ aistor ∷ mongodb ∷ []

detect_among : List ServiceName → Bytes → Option ServiceName
detect_among [] name = none
detect_among (s ∷ ss) name =
    let later = detect_among ss name in
    if has_prefix name (service_string s ++ codes "_") then some s else later

unfoldable pub detect_service : Bytes → Option ServiceName
unfolding detect_among
detect_service name = detect_among restorable name

abbrev base_name : FilePath → Bytes
base_name [] = codes "/"
base_name (name ∷ dir) = name

module _ {st : Storage} (h : Host) (backups_dir : FilePath) where
  told_latest : ServiceName → Option Bytes → World st → World st
  told_latest s none w = tell (no_backup (service_string s)) w
  told_latest s (some name) w = w

  plan_loop : FilePath → List ServiceName → World st → List PlanEntry × World st
  unfolding told_latest
  plan_loop app_dir [] w = ([], w)
  plan_loop app_dir (s ∷ rest) w =
      let latest = find_latest_backup h app_dir s w.machine in
      let w' = told_latest s latest w in
      let (plan, w'') = plan_loop app_dir rest w' in
      elim latest [
        | none ↦ (plan, w'')
        | some name ↦ (record { service = s; file = name ∷ app_dir } ∷ plan, w'')
      ]

  abbrev some_plan : List PlanEntry × World st → Result (List PlanEntry) × World st
  some_plan ([], w) = (err backup_not_found, w)
  some_plan (p ∷ ps, w) = (ok (p ∷ ps), w)

  plan_checks : Bytes → List Bytes → World st → Result (List ServiceName)
  plan_checks app_name services w = do
    validate_app_name app_name
    reg ← st.load w.storage
    entry ← entry_of app_name reg
    ok (choose_backup_services entry services)

  plan_checked : Bytes → Result (List ServiceName) → World st → Result (List PlanEntry) × World st
  unfolding plan_loop
  plan_checked app_name (err e) w = (err e, w)
  plan_checked app_name (ok targets) w = some_plan (plan_loop (app_name ∷ backups_dir) targets w)

  pub plan_restore : Bytes → List Bytes → World st → Result (List PlanEntry) × World st
  unfolding plan_checks plan_checked
  plan_restore app_name services w = plan_checked app_name (plan_checks app_name services w) w

  report_restore : ServiceName → Result (Unit {0}) → World st → World st
  report_restore s (err e) w = tell (restore_failed (service_string s) e) w
  report_restore s (ok u) w = tell (restored (service_string s)) w

  restore_loop : Bytes → List PlanEntry → World st → World st
  unfolding report_restore
  restore_loop app_name [] w = w
  restore_loop app_name (p ∷ ps) w =
      let (r, m) = run_restore h p.service app_name p.file w.machine in
      let done = report_restore p.service r (record w { machine = m }) in
      restore_loop app_name ps (
        if is_running h w.machine (service_container p.service)
        then done
        else tell (not_running (service_container p.service) (service_string p.service)) w)

  restore_planned : Bytes → Result (List PlanEntry) × World st → Result (Unit {0}) × World st
  unfolding restore_loop
  restore_planned app_name (err e, w) = (err e, w)
  restore_planned app_name (ok plan, w) = (ok tt, restore_loop app_name plan w)

  pub restore_app : Bytes → List Bytes → World st → Result (Unit {0}) × World st
  unfolding restore_planned
  restore_app app_name services w = restore_planned app_name (plan_restore app_name services w)

  -- `resolved` is the absolute path.
  file_checks : Bytes → FilePath → World st → Result ServiceName
  file_checks app_name resolved w = do
    validate_app_name app_name
    reg ← st.load w.storage
    entry_of app_name reg
    elim (find_file resolved w.machine.files) [
      | none ↦ err (not_exist (codes "stat"))
      | some _ ↦ elim (detect_service (base_name resolved)) [
        | none ↦ err (cannot_detect_service (base_name resolved))
        | some s ↦
            if is_running h w.machine (service_container s)
            then ok s
            else err (container_not_running (service_string s))
      ]
    ]

  restored_file : ServiceName → Result (Unit {0}) → World st → Result (Unit {0}) × World st
  restored_file s (err e) w = (err e, w)
  restored_file s (ok u) w = (ok tt, tell (restored (service_string s)) w)

  restore_checked : Bytes → FilePath → Result ServiceName → World st → Result (Unit {0}) × World st
  unfolding restored_file
  restore_checked app_name resolved (err e) w = (err e, w)
  restore_checked app_name resolved (ok s) w =
      let (r, m) = run_restore h s app_name resolved w.machine in
      restored_file s r (record w { machine = m })

  pub restore_from_file : Bytes → FilePath → World st → Result (Unit {0}) × World st
  unfolding file_checks restore_checked
  restore_from_file app_name resolved w =
      restore_checked app_name resolved (file_checks app_name resolved w) w

-- What Reconcile did for one app.
pub record ReconcileResult : Type 0 where
  pub app : Bytes
  pub ensured_services : List Bytes
  pub failures : Dict Error

module _ {st : Storage} (h : Host) where
  ensure_outcome :
      ServiceName → Result (Unit {0}) → ReconcileResult → World st → ReconcileResult × World st
  ensure_outcome s (err e) res w = (
    record res { failures = insert (service_string s) e res.failures },
    tell (ensure_failed res.app (service_string s) e) w,
  )
  ensure_outcome s (ok u) res w = (
    record res { ensured_services = res.ensured_services ++ service_string s ∷ [] },
    tell (ensured res.app (service_string s)) w,
  )

  ensure_rabbitmq : Option RabbitMqConfig → ReconcileResult → World st → ReconcileResult × World st
  unfolding ensure_outcome
  ensure_rabbitmq none res w = (res, w)
  ensure_rabbitmq (some cfg) res w =
      let (r, m) = Rabbitmq.ensure h cfg w.machine in
      ensure_outcome rabbitmq r res (record w { machine = m })

  ensure_mongodb : Option MongoDbConfig → ReconcileResult → World st → ReconcileResult × World st
  unfolding ensure_outcome
  ensure_mongodb none res w = (res, w)
  ensure_mongodb (some cfg) res w =
      let (r, m) = Mongodb.ensure h cfg w.machine in
      ensure_outcome mongodb r res (record w { machine = m })

  reconcile_entry : Bytes → Option AppEntry → World st → List ReconcileResult × World st
  unfolding ensure_rabbitmq ensure_mongodb
  reconcile_entry name none w = ([], w)
  reconcile_entry name (some entry) w =
      let start : ReconcileResult = record { app = name; ensured_services = []; failures = [] } in
      let (res, w') = ensure_rabbitmq entry.services.rabbitmq_config start w in
      let (res', w'') = ensure_mongodb entry.services.mongodb_config res w' in (res' ∷ [], w'')

  reconcile_loop : Registry → List Bytes → World st → List ReconcileResult × World st
  unfolding reconcile_entry
  reconcile_loop reg [] w = ([], w)
  reconcile_loop reg (name ∷ names) w =
      let (res, w') = reconcile_entry name (lookup name reg.apps) w in
      let (more, w'') = reconcile_loop reg names w' in (res ++ more, w'')

  reconcile_loaded : Result Registry → World st → Result (List ReconcileResult) × World st
  unfolding reconcile_loop
  reconcile_loaded (err e) w = (err e, w)
  reconcile_loaded (ok reg) w =
      let (results, w') = reconcile_loop reg (sort_strings (keys reg.apps)) w in (ok results, w')

  pub reconcile : World st → Result (List ReconcileResult) × World st
  unfolding reconcile_loaded
  reconcile w = reconcile_loaded (st.load w.storage) w
