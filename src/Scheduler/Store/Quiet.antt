-- ===== src/Scheduler/Store/Quiet.antt =====
-- What the statements of a run do to the tables when none of them fails.
use infra_shelf.Common.{
  ℕ, Bytes, true, List, [], ◌∷◌, ◌++◌, Option, none, some, is_some, ok, err, constraint_failed, ◌≡◌,
  refl, sym, ap, ◌+◌,
}
use infra_shelf.Common.Text.{codes}
use infra_shelf.Scheduler.Rows.{Clock, RunRow, Db, join_services}
use infra_shelf.Scheduler.Table.{find_row, change_row}
use infra_shelf.Scheduler.Store.{
  schedule_key, run_key, insert_run, start_run, finish_run, mark_schedule_run, update_schedule,
  affected_run,
}

abbrev pub quiet : Db → Db
quiet db = record db { faults = [] }

pub quiet_same : (db : Db) → db.faults ≡ [] → quiet db ≡ db
quiet_same db h = ap (λ fs. record db { faults = fs }) (sym h)

module _ (c : Clock) where
  abbrev pub started_row : ℕ → Bytes → List Bytes → ℕ → ℕ → RunRow
  started_row schedule app_name services now id = record {
    id = id;
    schedule_id = some schedule;
    app_name = app_name;
    services = join_services services;
    status = codes "running";
    output = [];
    started_at = c.format now;
    finished_at = none;
  }

  pub start_quiet :
      (schedule : ℕ) (app_name : Bytes) (services : List Bytes) (now : ℕ) (db : Db)
      → is_some (find_row schedule_key schedule db.schedules) ≡ true
      → start_run c (some schedule) app_name services now (quiet db) ≡ (
        ok (db.last_run + 1),
        record (quiet db) {
          runs = db.runs ++ started_row schedule app_name services now (db.last_run + 1) ∷ [];
          last_run = db.last_run + 1;
        },
      )
  unfolding start_run insert_run
  start_quiet schedule app_name services now db h = rw h refl

  -- The foreign key refuses a run of a schedule that is not there.
  pub start_gone :
      (schedule : ℕ) (app_name : Bytes) (services : List Bytes) (now : ℕ) (db : Db)
      → find_row schedule_key schedule db.schedules ≡ none
      → start_run c (some schedule) app_name services now (quiet db)
        ≡ (err constraint_failed, quiet db)
  unfolding start_run insert_run
  start_gone schedule app_name services now db h = rw h refl

  affected_run_same : (o : Option RunRow) (db : Db) → (affected_run c o db).1 ≡ db
  affected_run_same none db = refl
  affected_run_same (some r) db = refl

  pub finish_quiet :
      (id : ℕ) (status output : Bytes) (now : ℕ) (db : Db)
      → (finish_run c id status output now (quiet db)).1 ≡ record (quiet db) {
        runs =
            change_row run_key id
              (λ r. record r {
                status = status;
                output = output;
                finished_at = some (c.format now);
              })
              db.runs;
      }
  unfolding finish_run
  finish_quiet id status output now db = affected_run_same _ _

  pub mark_quiet :
      (id : ℕ) (status message : Bytes) (ran_at now : ℕ) (db : Db)
      → (mark_schedule_run c id status message ran_at now (quiet db)).1 ≡ record (quiet db) {
        schedules =
            change_row schedule_key id
              (λ r. record r {
                last_run_at = some (c.format ran_at);
                last_status = status;
                last_message = message;
                updated_at = c.format now;
              })
              db.schedules;
      }
  unfolding mark_schedule_run update_schedule
  mark_quiet id status message ran_at now db = refl
