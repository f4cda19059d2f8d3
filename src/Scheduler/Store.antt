-- ===== src/Scheduler/Store.antt =====
-- internal/web/scheduler/store.go: the operations, each the statements that it sends. What a
-- statement does to the tables is what its SQL says; a statement that fails changes nothing. The
-- time of a call is its argument `now`. The numbers of a retention are not negative.
pub mod Invariant
pub mod Listed
pub mod Quiet
pub mod Refines
pub mod Services
use mathlib.Core.List.{reverse}
use infra_shelf.Common.{
  ℕ, Bytes, Bool, true, false, ◌&&◌, ◌||◌, not, List, [], ◌∷◌, ◌++◌, Option, none, some, is_some,
  map, filter, take, length, ◌+◌, leb, ltb, ◌==◌, Result, ok, err, Error, no_rows,
  constraint_failed, if◌then◌else◌,
}
use infra_shelf.Common.Text.{codes}
use infra_shelf.Scheduler.Table.{find_row, change_row, remove_row}
use infra_shelf.Scheduler.Rows.{
  Clock, Schedule, ScheduleInput, Run, ScheduleRow, RunRow, Db, join_services, bool_int,
  scan_schedule, scan_run,
}

abbrev pub Sql {ℓ} : Type ℓ → Type ℓ
Sql A = Db → Result A × Db

module _ {ℓ} {A : Type ℓ} where
  abbrev statement_on : List (Option Error) → Sql A → Sql A
  statement_on [] f db = f db
  statement_on (none ∷ fs) f db = f (record db { faults = fs })
  statement_on (some e ∷ fs) f db = (err e, record db { faults = fs })

  -- One statement, which can fail before it changes anything.
  abbrev pub statement : Sql A → Sql A
  statement f db = statement_on db.faults f db

module _ {ℓ κ} {A : Type ℓ} {B : Type κ} where
  abbrev pub continue : Result A → (A → Sql B) → Sql B
  continue (ok a) f db = f a db
  continue (err e) f db = (err e, db)

  infixl 5 ◌>>=◌ ◌>>◌
  abbrev pub ◌>>=◌ : Sql A → (A → Sql B) → Sql B
  ◌>>=◌ x f db = let (r, db') = x db in continue r f db'

  abbrev pub ◌>>◌ : Sql A → Sql B → Sql B
  x >> y = x >>= λ _. y

abbrev pub schedule_key : ScheduleRow → ℕ
schedule_key r = r.id

abbrev pub run_key : RunRow → ℕ
run_key r = r.id

-- `ON DELETE SET NULL`
abbrev pub null_if : ℕ → Option ℕ → Option ℕ
null_if id none = none
null_if id (some k) = if k == id then none else some k

unfoldable pub set_null : ℕ → List RunRow → List RunRow
set_null id [] = []
set_null id (r ∷ rs) = record r { schedule_id = null_if id r.schedule_id } ∷ set_null id rs

-- `requireAffected`: a statement that found no row.
abbrev require_affected : Option ScheduleRow → Db → Result (Unit {0}) × Db
require_affected none db = (err no_rows, db)
require_affected (some r) db = (ok tt, db)

abbrev new_row : ScheduleInput → Bytes → ℕ → ScheduleRow
new_row input now id = record {
  id = id;
  app_name = input.app_name;
  services = join_services input.services;
  cron_expr = input.cron_expr;
  timezone = input.timezone;
  retention_days = input.retention_days;
  retention_count = input.retention_count;
  enabled = bool_int input.enabled;
  created_at = now;
  updated_at = now;
  last_run_at = none;
  next_run_at = none;
  last_status = [];
  last_message = [];
}

pub insert_schedule : ScheduleInput → Bytes → Sql ℕ
insert_schedule input now = statement λ db.
    let id = db.last_schedule + 1 in
    (ok id, record db { schedules = db.schedules ++ new_row input now id ∷ []; last_schedule = id })

abbrev selected : Option ScheduleRow → Result ScheduleRow
selected none = err no_rows
selected (some r) = ok r

pub select_schedule : ℕ → Sql ScheduleRow
select_schedule id = statement λ db. (selected (find_row schedule_key id db.schedules), db)

-- An UPDATE of one schedule, and whether it was there.
pub update_schedule : ℕ → (ScheduleRow → ScheduleRow) → Sql (Option ScheduleRow)
update_schedule id f = statement λ db. (
  ok (find_row schedule_key id db.schedules),
  record db { schedules = change_row schedule_key id f db.schedules },
)

-- The foreign key of a run is null or the id of a schedule.
abbrev pub refers : Option ℕ → List ScheduleRow → Bool
refers none schedules = true
refers (some id) schedules = is_some (find_row schedule_key id schedules)

pub insert_run : Option ℕ → Bytes → Bytes → Bytes → Sql ℕ
insert_run schedule_id app_name services started = statement λ db.
    let id = db.last_run + 1 in
    if refers schedule_id db.schedules
    then (
      ok id,
      record db {
        runs =
            db.runs
            ++ record {
              id = id;
              schedule_id = schedule_id;
              app_name = app_name;
              services = services;
              status = codes "running";
              output = [];
              started_at = started;
              finished_at = none;
            }
              ∷ [];
        last_run = id;
      },
    )
    else (err constraint_failed, db)

-- `ORDER BY enabled DESC, id DESC`, of rows in the order of their ids.
abbrev pub in_order : List ScheduleRow → List ScheduleRow
in_order rows =
    filter (λ r. r.enabled == 1) (reverse rows) ++ filter (λ r. not (r.enabled == 1)) (reverse rows)

-- `if limit <= 0 || limit > 200 { limit = 50 }`
pub limit_of : ℕ → ℕ
limit_of limit = if limit == 0 || ltb 200 limit then 50 else limit

module _ (c : Clock) where
  abbrev get_selected : ScheduleRow → Sql Schedule
  get_selected r db = (ok (scan_schedule c r), db)

  pub get_schedule : ℕ → Sql Schedule
  get_schedule id = do r ← select_schedule id; get_selected r

  pub create_schedule : ScheduleInput → ℕ → Sql Schedule
  unfolding get_schedule
  create_schedule input now = do id ← insert_schedule input (c.format now); get_schedule id

  pub list_schedules : Sql (List Schedule)
  list_schedules = statement λ db. (ok (map (scan_schedule c) (in_order db.schedules)), db)

  pub set_schedule_enabled : ℕ → Bool → ℕ → Sql (Unit {0})
  set_schedule_enabled id enabled now = do
    found ←
        update_schedule id (λ r. record r { enabled = bool_int enabled; updated_at = c.format now })
    require_affected found

  pub delete_schedule : ℕ → Sql (Unit {0})
  delete_schedule id = do
    found ← statement λ db. (
      ok (find_row schedule_key id db.schedules),
      record db { schedules = remove_row schedule_key id db.schedules; runs = set_null id db.runs },
    )
    require_affected found

  -- Whether the schedule is there does not count.
  pub update_next_run : ℕ → ℕ → ℕ → Sql (Unit {0})
  update_next_run id next now = do
    update_schedule id
        (λ r. record r { next_run_at = some (c.format next); updated_at = c.format now })
    λ db. (ok tt, db)

  pub mark_schedule_run : ℕ → Bytes → Bytes → ℕ → ℕ → Sql (Unit {0})
  mark_schedule_run id status message ran_at now = do
    update_schedule id (λ r. record r {
      last_run_at = some (c.format ran_at);
      last_status = status;
      last_message = message;
      updated_at = c.format now;
    })
    λ db. (ok tt, db)

  pub start_run : Option ℕ → Bytes → List Bytes → ℕ → Sql ℕ
  start_run schedule_id app_name services now =
      insert_run schedule_id app_name (join_services services) (c.format now)

  abbrev affected_run : Option RunRow → Sql (Unit {0})
  affected_run none db = (err no_rows, db)
  affected_run (some r) db = (ok tt, db)

  pub finish_run : ℕ → Bytes → Bytes → ℕ → Sql (Unit {0})
  finish_run id status output now = do
    found ← statement λ db. (
      ok (find_row run_key id db.runs),
      record db {
        runs =
            change_row run_key id
              (λ r. record r {
                status = status;
                output = output;
                finished_at = some (c.format now);
              })
              db.runs;
      },
    )
    affected_run found

  -- `ORDER BY started_at DESC` is the parameter `newest`: it leaves the order of runs that started in
  -- one second to the database.
  pub list_runs : (List RunRow → List RunRow) → ℕ → Sql (List Run)
  unfolding limit_of
  list_runs newest limit =
      statement λ db. (ok (map (scan_run c) (take (limit_of limit) (newest db.runs))), db)
