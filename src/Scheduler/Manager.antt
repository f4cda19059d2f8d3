-- ===== src/Scheduler/Manager.antt =====
-- internal/web/scheduler/manager.go: a run of a schedule. What it runs is an interface. The log
-- lines and the time limits of a run are not kept.
pub mod Recorded
pub mod Brief
use infra_shelf.Common.{
  ℕ, Bytes, Bool, true, false, List, [], ◌∷◌, ◌++◌, Option, none, some, Result, ok, err, Error, leb,
  length, take, if◌then◌else◌, ◌≡◌, filter, ◌==◌, not, map,
}
use infra_shelf.Common.Text.{codes, str_eq, is_empty, trim_space, join}
use infra_shelf.Backups.{PruneOptions}
use infra_shelf.Scheduler.Rows.{Clock, Schedule, Db}
use infra_shelf.Scheduler.Store.{
  get_schedule, list_schedules, update_next_run, start_run, finish_run, mark_schedule_run,
}

pub brief_output : Bytes → Bytes
brief_output output =
    let trimmed = trim_space output in
    if leb (length trimmed) 300 then trimmed else take 300 trimmed ++ codes "..."

-- `BackupRunner`: the log of a run, and its error.
pub record Runner : Type 1 where
  pub State : Type 0
  pub backup_with_retention :
      Bytes → Bool → List Bytes → PruneOptions → State → (Bytes × Option Error) × State

-- The readings of the clock in one run.
pub record Times : Type 0 where
  pub started : ℕ
  pub finished : ℕ
  pub ran : ℕ
  pub marked : ℕ

abbrev pub every_app : Schedule → Bool
every_app s = str_eq s.app_name (codes "*")

abbrev pub retention : Schedule → PruneOptions
retention s = record {
  app_name = s.app_name;
  all = every_app s;
  services = s.services;
  keep_days = s.retention_days;
  keep_count = s.retention_count;
}

-- The status and the output of a run; `message` is what an error says.
abbrev pub run_status : Option Error → Bytes
run_status none = codes "success"
run_status (some e) = codes "failed"

abbrev pub run_output : (Error → Bytes) → Bytes → Option Error → Bytes
run_output message log none = log
run_output message log (some e) = (if is_empty log then log else log ++ b'\n' ∷ []) ++ message e

module _ (c : Clock) (runner : Runner) (message : Error → Bytes) where
  abbrev pub World : Type 0
  World = Db × runner.State

  -- The two records of how a run ended; that one fails does not stop the other.
  record_end : ℕ → ℕ → Bytes → Bytes → Times → Db → Db
  unfolding brief_output
  record_end run_id id status output times db =
      let (_, db') = finish_run c run_id status (trim_space output) times.finished db in
      let (_, db'') =
        mark_schedule_run c id status (brief_output output) times.ran times.marked db' in
      db''

  run_started : Schedule → Times → Result ℕ × Db → runner.State → World
  unfolding record_end
  run_started s times (err e, db) r = (db, r)
  run_started s times (ok run_id, db) r =
      let all = every_app s in
      let ((log, error), r') =
        runner.backup_with_retention (if all then [] else s.app_name) all s.services (retention s)
          r in
      (record_end run_id s.id (run_status error) (run_output message log error) times db, r')

  pub run : Schedule → Times → World → World
  unfolding run_started
  run s times (db, r) =
      run_started s times (start_run c (some s.id) s.app_name s.services times.started db) r

  run_found : Times → Result Schedule × Db → runner.State → Result (Unit {0}) × World
  unfolding run
  run_found times (err e, db) r = (err e, (db, r))
  run_found times (ok s, db) r = (ok tt, run s times (db, r))

  -- `RunNow`, with its goroutine run to the end, and the job of `runSchedule`.
  pub run_now : ℕ → Times → World → Result (Unit {0}) × World
  unfolding run_found
  run_now id times (db, r) = run_found times (get_schedule c id db) r

  pub run_schedule : ℕ → Times → World → World
  unfolding run_found
  run_schedule id times (db, r) = (run_found times (get_schedule c id db) r).1

pub display_target : Bytes → Bytes
display_target app_name = if str_eq app_name (codes "*") then codes "all apps" else app_name

pub display_services : List Bytes → Bytes
display_services [] = codes "all services"
display_services (s ∷ ss) = join (s ∷ ss) (codes ", ")

pub describe : Schedule → Bytes
unfolding display_target display_services
describe s =
    display_target s.app_name
    ++ (codes " / " ++ (display_services s.services ++ (codes " / " ++ s.cron_expr)))
