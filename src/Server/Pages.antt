-- ===== src/Server/Pages.antt =====
-- internal/web/server/server.go: what the pages of the schedules leave of the tables and the jobs.
use infra_shelf.Common.{ℕ, Bytes, Bool, true, false, Option, Result, ok, err, Error}
use infra_shelf.Common.Text.{codes}
use infra_shelf.Registry.{App}
use infra_shelf.Scheduler.Rows.{Clock, ScheduleInput, Db}
use infra_shelf.Scheduler.Store.{
  create_schedule, set_schedule_enabled, delete_schedule, list_schedules,
}
use infra_shelf.Scheduler.Store.Invariant.{IsConsistent, perform_keeps, create, enable, remove}
use infra_shelf.Scheduler.Jobs.{Cron, Manager, reload}
use infra_shelf.Scheduler.Jobs.Kept.{reload_keeps}
use infra_shelf.Scheduler.Jobs.Reloaded.{IsTracked, JobsAfter, reload_lem}
use infra_shelf.Server.{
  Form, Redirect, success, error, Checked, refused, accepted, check_form, reloaded, after_change,
  create_checked, create_schedule_page, set_enabled_page, pause_schedule, resume_schedule,
  delete_schedule_page,
}

-- A request for one of the pages, and when it is served.
pub data Request : Type 0 where
  create_page : Form → ℕ → Request
  pause_page resume_page delete_page : Result ℕ → ℕ → Request

module _ (message : Error → Bytes) (c : Clock) (cron : Cron) (here : Bytes)
    (get_app : Bytes → Result (Option App)) (fallback : Bytes) where
  abbrev State : Type 0
  State = Manager c cron here

  abbrev pub serve : Request → State → Redirect × State
  serve (create_page form now) m =
      create_schedule_page message c cron here get_app fallback form now m
  serve (pause_page id now) m = pause_schedule message c cron here id now m
  serve (resume_page id now) m = resume_schedule message c cron here id now m
  serve (delete_page id now) m = delete_schedule_page message c cron here id now m

  -- The tables are consistent, and every job is one of the entries.
  abbrev pub IsOrderly : State → Type 0
  IsOrderly m = IsConsistent m.db × IsTracked c cron here m

  -- The tables after the change that a request is for, before the reload.
  abbrev created : Checked ScheduleInput → ℕ → Db → Db
  created (refused e) now db = db
  created (accepted input) now db = (create_schedule c input now db).1

  abbrev switched : Result ℕ → Bool → ℕ → Db → Db
  switched (err e) enabled now db = db
  switched (ok id) enabled now db = (set_schedule_enabled c id enabled now db).1

  abbrev deleted : Result ℕ → Db → Db
  deleted (err e) db = db
  deleted (ok id) db = (delete_schedule c id db).1

  abbrev pub changed_db : Request → Db → Db
  changed_db (create_page form now) db =
      created (check_form message cron get_app fallback form) now db
  changed_db (pause_page id now) db = switched id false now db
  changed_db (resume_page id now) db = switched id true now db
  changed_db (delete_page id now) db = deleted id db

  -- The state stays orderly. After a success the jobs are those that the schedules of the changed
  -- tables ask for.
  abbrev pub IsServed : Db → Redirect × State → Type 0
  IsServed db (error e, m) = IsOrderly m
  IsServed db (success s, m) = IsOrderly m × JobsAfter c cron here (list_schedules c db).0 m

  reloaded-IsServed :
      (done : Bytes) (db : Db) (r : Result (Unit {0})) (m : State)
      → IsOrderly m × JobsAfter c cron here (list_schedules c db).0 m
      → IsServed db (reloaded message c cron here done (r, m))
  reloaded-IsServed done db (err e) m (o, j) = o
  reloaded-IsServed done db (ok u) m h = h

  after_change-IsServed :
      {A : Type 0} (done : Bytes) (now : ℕ) (r : Result A) (db : Db) (m : State)
      → IsConsistent db
      → IsTracked c cron here m
      → IsServed db (after_change message c cron here done now (r, db) m)
  after_change-IsServed done now (err e) db m h t = (h, t)
  after_change-IsServed done now (ok a) db m h t =
      let m' = record m { db = db } in
      let (jobs, tracked) = reload_lem c cron here now m' h t in
      let (r, m'') = reload c cron here now m' in
      reloaded-IsServed done db r m'' ((reload_keeps c cron here now m' h, tracked), jobs)

  created-IsServed :
      (x : Checked ScheduleInput) (now : ℕ) (m : State)
      → IsOrderly m
      → IsServed (created x now m.db) (create_checked message c cron here now x m)
  unfolding create_checked
  created-IsServed (refused e) now m h = h
  created-IsServed (accepted input) now m (h, t) =
      let (r, db) = create_schedule c input now m.db in
      after_change-IsServed (codes "schedule created") now r db m
        (perform_keeps c (create input now) m.db h) t

  switched-IsServed :
      (id : Result ℕ) (b : Bool) (now : ℕ) (m : State)
      → IsOrderly m
      → IsServed (switched id b now m.db) (set_enabled_page message c cron here id b now m)
  unfolding set_enabled_page
  switched-IsServed (err e) b now m h = h
  switched-IsServed (ok id) b now m (h, t) =
      let (r, db) = set_schedule_enabled c id b now m.db in
      after_change-IsServed (codes "schedule updated") now r db m
        (perform_keeps c (enable id b now) m.db h) t

  deleted-IsServed :
      (id : Result ℕ) (now : ℕ) (m : State)
      → IsOrderly m
      → IsServed (deleted id m.db) (delete_schedule_page message c cron here id now m)
  unfolding delete_schedule_page
  deleted-IsServed (err e) now m h = h
  deleted-IsServed (ok id) now m (h, t) =
      let (r, db) = delete_schedule c id m.db in
      after_change-IsServed (codes "schedule deleted") now r db m
        (perform_keeps c (remove id) m.db h) t

  -- Each page of the schedules leaves the tables consistent and every job one of the entries,
  -- also where it reports an error. Where it reports a success, the jobs are those that the enabled
  -- schedules ask for, as they are listed after the change, or none if they cannot be listed.
  pub serve-IsServed :
      (q : Request) (m : State) → IsOrderly m → IsServed (changed_db q m.db) (serve q m)
  unfolding create_schedule_page pause_schedule resume_schedule
  serve-IsServed (create_page form now) m h =
      created-IsServed (check_form message cron get_app fallback form) now m h
  serve-IsServed (pause_page id now) m h = switched-IsServed id false now m h
  serve-IsServed (resume_page id now) m h = switched-IsServed id true now m h
  serve-IsServed (delete_page id now) m h = deleted-IsServed id now m h
