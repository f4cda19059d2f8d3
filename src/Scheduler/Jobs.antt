-- ===== src/Scheduler/Jobs.antt =====
-- internal/web/scheduler/manager.go: the cron jobs of the schedules (`Reload`, `addSchedule`,
-- `Validate`). The library robfig/cron and the time zones are a parameter.
pub mod Reloaded
pub mod Kept
use infra_shelf.Common.{
  ℕ, Bytes, Bool, true, false, List, [], ◌∷◌, ◌++◌, Option, none, some, Result, ok, err, Error,
  filter, not, ◌==◌, ◌≡◌, if◌then◌else◌,
}
use infra_shelf.Common.Text.{codes, str_eq}
use infra_shelf.Scheduler.Rows.{Clock, Schedule, Db}
use infra_shelf.Scheduler.Store.{list_schedules, update_next_run}

-- A job: what it runs is the schedule with this id.
pub record Job : Type 0 where
  pub entry : ℕ
  pub spec : Bytes
  pub schedule : ℕ

pub record Cron : Type 1 where
  pub State : Type 0
  pub jobs : State → List Job
  pub add_func : Bytes → ℕ → State → Result ℕ × State
  pub remove : ℕ → State → State
  -- `parser.Parse`, and the next time from a time on, in a time zone
  pub parse : Bytes → Result (Unit {0})
  pub next : Bytes → Bytes → ℕ → ℕ
  -- `time.LoadLocation`, and the name of the location
  pub load_location : Bytes → Result Bytes
  -- a spec that parses gets a new entry; another gives an error, and nothing changes
  pub valid : Bytes → Bool
  pub add_valid :
      (spec : Bytes) (schedule : ℕ) (s : State)
      → valid spec ≡ true
      → (e : ℕ) × ((add_func spec schedule s).0 ≡ ok e)
        × (jobs (add_func spec schedule s).1
            ≡ jobs s ++ record { entry = e; spec = spec; schedule = schedule } ∷ [])
  pub add_invalid :
      (spec : Bytes) (schedule : ℕ) (s : State)
      → valid spec ≡ false
      → (x : Error) × ((add_func spec schedule s).0 ≡ err x)
        × (jobs (add_func spec schedule s).1 ≡ jobs s)
  pub jobs-remove :
      (e : ℕ) (s : State) → jobs (remove e s) ≡ filter (λ j. not (j.entry == e)) (jobs s)

module _ (c : Clock) (cron : Cron) (here : Bytes) where
  -- The entries of the schedules, the jobs of the library, and the tables. `here` is the location
  -- of the manager.
  pub record Manager : Type 0 where
    pub entries : List (ℕ × ℕ)
    pub jobs : cron.State
    pub db : Db

  -- `m.entries[id] = e`
  set_entry : ℕ → ℕ → List (ℕ × ℕ) → List (ℕ × ℕ)
  set_entry id e [] = (id, e) ∷ []
  set_entry id e ((k, x) ∷ rest) =
      let later = set_entry id e rest in if k == id then (k, e) ∷ rest else (k, x) ∷ later

  pub remove_all : List (ℕ × ℕ) → cron.State → cron.State
  remove_all [] s = s
  remove_all ((id, e) ∷ rest) s = remove_all rest (cron.remove e s)

  -- A schedule in another time zone says so in its spec.
  pub spec_of : Bytes → Schedule → Bytes
  spec_of location s =
      if str_eq location here
      then s.cron_expr
      else codes "CRON_TZ=" ++ (location ++ (codes " " ++ s.cron_expr))

  -- The next time is written down if it can be; whether that fails does not count.
  write_next : Bytes → Schedule → Result (Unit {0}) → ℕ → Db → Db
  write_next location s (err x) now db = db
  write_next location s (ok u) now db =
      (update_next_run c s.id (cron.next s.cron_expr location now) now db).1

  added : Bytes → Schedule → ℕ → Result ℕ × cron.State → Manager → Result (Unit {0}) × Manager
  unfolding set_entry write_next
  added location s now (err x, jobs) m = (err x, record m { jobs = jobs })
  added location s now (ok e, jobs) m = (
    ok tt,
    record {
      entries = set_entry s.id e m.entries;
      jobs = jobs;
      db = write_next location s (cron.parse s.cron_expr) now m.db;
    },
  )

  add_located : Schedule → ℕ → Result Bytes → Manager → Result (Unit {0}) × Manager
  unfolding added
  add_located s now (err x) m = (err x, m)
  add_located s now (ok location) m =
      added location s now (cron.add_func (spec_of location s) s.id m.jobs) m

  add_schedule : Schedule → ℕ → Manager → Result (Unit {0}) × Manager
  unfolding add_located
  add_schedule s now m = add_located s now (cron.load_location s.timezone) m

  -- A schedule that cannot be added is skipped.
  add_enabled : List Schedule → ℕ → Manager → Manager
  add_enabled [] now m = m
  add_enabled (s ∷ ss) now m =
      add_enabled ss now (if s.enabled then (add_schedule s now m).1 else m)

  reload_listed : ℕ → Result (List Schedule) × Db → Manager → Result (Unit {0}) × Manager
  unfolding add_enabled
  reload_listed now (err x, db) m = (err x, record m { db = db })
  reload_listed now (ok ss, db) m = (ok tt, add_enabled ss now (record m { db = db }))

  pub reload : ℕ → Manager → Result (Unit {0}) × Manager
  unfolding reload_listed remove_all
  reload now m =
      reload_listed now (list_schedules c m.db)
        (record m { entries = []; jobs = remove_all m.entries m.jobs })

unfoldable pub validate : Cron → Bytes → Result (Unit {0})
validate cron expr = cron.parse expr
