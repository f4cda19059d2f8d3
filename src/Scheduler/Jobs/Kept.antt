-- ===== src/Scheduler/Jobs/Kept.antt =====
-- `Reload` keeps the tables consistent.
use infra_shelf.Common.{ℕ, Bytes, Bool, true, false, List, [], ◌∷◌, Result, ok, err, if◌then◌else◌}
use infra_shelf.Scheduler.Rows.{Clock, Schedule, Db}
use infra_shelf.Scheduler.Store.{list_schedules}
use infra_shelf.Scheduler.Store.Invariant.{
  IsConsistent, perform_keeps, next_run, list_schedules-Keeps,
}
use infra_shelf.Scheduler.Jobs.{
  Cron, Manager, write_next, added, add_located, add_schedule, add_enabled, reload_listed, reload,
  remove_all, spec_of,
}

module _ (c : Clock) (cron : Cron) (here : Bytes) where
  write_next_keeps :
      (location : Bytes) (s : Schedule) (r : Result (Unit {0})) (now : ℕ) (db : Db)
      → IsConsistent db
      → IsConsistent (write_next c cron here location s r now db)
  unfolding write_next
  write_next_keeps location s (err x) now db h = h
  write_next_keeps location s (ok u) now db h =
      perform_keeps c (next_run s.id (cron.next s.cron_expr location now) now) db h

  added_keeps :
      (location : Bytes) (s : Schedule) (now : ℕ) (r : Result ℕ) (jobs : cron.State)
      (m : Manager c cron here)
      → IsConsistent m.db
      → IsConsistent (added c cron here location s now (r, jobs) m).1.db
  unfolding added
  added_keeps location s now (err x) jobs m h = h
  added_keeps location s now (ok e) jobs m h =
      write_next_keeps location s (cron.parse s.cron_expr) now m.db h

  located_keeps :
      (s : Schedule) (now : ℕ) (l : Result Bytes) (m : Manager c cron here)
      → IsConsistent m.db
      → IsConsistent (add_located c cron here s now l m).1.db
  unfolding add_located
  located_keeps s now (err x) m h = h
  located_keeps s now (ok location) m h =
      let (r, jobs) = cron.add_func (spec_of c cron here location s) s.id m.jobs in
      added_keeps location s now r jobs m h

  one_keeps :
      (s : Schedule) (now : ℕ) (b : Bool) (m : Manager c cron here)
      → IsConsistent m.db
      → IsConsistent (if b then (add_schedule c cron here s now m).1 else m).db
  unfolding add_schedule
  one_keeps s now true m h = located_keeps s now (cron.load_location s.timezone) m h
  one_keeps s now false m h = h

  enabled_keeps :
      (ss : List Schedule) (now : ℕ) (m : Manager c cron here)
      → IsConsistent m.db
      → IsConsistent (add_enabled c cron here ss now m).db
  unfolding add_enabled
  enabled_keeps [] now m h = h
  enabled_keeps (s ∷ ss) now m h =
      enabled_keeps ss now (if s.enabled then (add_schedule c cron here s now m).1 else m)
        (one_keeps s now s.enabled m h)

  listed_keeps :
      (now : ℕ) (r : Result (List Schedule)) (db : Db) (m : Manager c cron here)
      → IsConsistent db
      → IsConsistent (reload_listed c cron here now (r, db) m).1.db
  unfolding reload_listed
  listed_keeps now (err x) db m h = h
  listed_keeps now (ok ss) db m h = enabled_keeps ss now (record m { db = db }) h

  pub reload_keeps :
      (now : ℕ) (m : Manager c cron here)
      → IsConsistent m.db
      → IsConsistent (reload c cron here now m).1.db
  unfolding reload
  reload_keeps now m h =
      listed_keeps now (list_schedules c m.db).0 (list_schedules c m.db).1
        (record m { entries = []; jobs = remove_all c cron here m.entries m.jobs })
        (list_schedules-Keeps c m.db h)
