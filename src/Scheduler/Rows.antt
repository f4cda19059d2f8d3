-- ===== src/Scheduler/Rows.antt =====
-- internal/web/scheduler/store.go: the tables, their rows, and what a row is read as.
use infra_shelf.Common.{
  ℕ, Bytes, Bool, true, false, List, [], ◌∷◌, Option, none, some, ◌≡◌, Error, ◌==◌, if◌then◌else◌,
}
use infra_shelf.Common.Text.{is_empty, join, split, trim_space}

-- time.Format and time.Parse with RFC3339. A time is its seconds, and the zero time is 0;
-- the times are those of the years up to 9999, whose texts time.Parse reads.
pub record Clock : Type 0 where
  pub format : ℕ → Bytes
  pub parse : Bytes → Option ℕ
  pub parse-format : (t : ℕ) → parse (format t) ≡ some t

pub record Schedule : Type 0 where
  pub id : ℕ
  pub app_name : Bytes
  pub services : List Bytes
  pub cron_expr : Bytes
  pub timezone : Bytes
  pub retention_days : ℕ
  pub retention_count : ℕ
  pub enabled : Bool
  pub created_at : ℕ
  pub updated_at : ℕ
  pub last_run_at : Option ℕ
  pub next_run_at : Option ℕ
  pub last_status : Bytes
  pub last_message : Bytes

pub record ScheduleInput : Type 0 where
  pub app_name : Bytes
  pub services : List Bytes
  pub cron_expr : Bytes
  pub timezone : Bytes
  pub retention_days : ℕ
  pub retention_count : ℕ
  pub enabled : Bool

pub record Run : Type 0 where
  pub id : ℕ
  pub schedule_id : Option ℕ
  pub app_name : Bytes
  pub services : List Bytes
  pub status : Bytes
  pub output : Bytes
  pub started_at : ℕ
  pub finished_at : Option ℕ

-- The columns of `schedules`.
pub record ScheduleRow : Type 0 where
  pub id : ℕ
  pub app_name : Bytes
  pub services : Bytes
  pub cron_expr : Bytes
  pub timezone : Bytes
  pub retention_days : ℕ
  pub retention_count : ℕ
  pub enabled : ℕ
  pub created_at : Bytes
  pub updated_at : Bytes
  pub last_run_at : Option Bytes
  pub next_run_at : Option Bytes
  pub last_status : Bytes
  pub last_message : Bytes

-- The columns of `backup_runs`.
pub record RunRow : Type 0 where
  pub id : ℕ
  pub schedule_id : Option ℕ
  pub app_name : Bytes
  pub services : Bytes
  pub status : Bytes
  pub output : Bytes
  pub started_at : Bytes
  pub finished_at : Option Bytes

-- The tables, in the order of their ids, the last ids that were given (AUTOINCREMENT never gives
-- one again), and how the coming statements fare: each none, or the error that it fails with.
pub record Db : Type 0 where
  pub schedules : List ScheduleRow
  pub runs : List RunRow
  pub last_schedule : ℕ
  pub last_run : ℕ
  pub faults : List (Option Error)

unfoldable pub join_services : List Bytes → Bytes
join_services services = join services (b',' ∷ [])

unfoldable pub kept_parts : List Bytes → List Bytes
kept_parts [] = []
kept_parts (part ∷ parts) =
    let services = kept_parts parts in
    if is_empty (trim_space part) then services else trim_space part ∷ services

unfoldable pub split_services : Bytes → List Bytes
unfolding kept_parts
split_services [] = []
split_services (c ∷ value) = kept_parts (split (c ∷ value) b',')

abbrev pub bool_int : Bool → ℕ
bool_int true = 1
bool_int false = 0

module _ (c : Clock) where
  abbrev time_or_zero : Option ℕ → ℕ
  time_or_zero none = 0
  time_or_zero (some t) = t

  -- A text that is no time is read as the zero time.
  unfoldable pub parse_time : Bytes → ℕ
  parse_time value = time_or_zero (c.parse value)

  unfoldable pub parse_null : Option Bytes → Option ℕ
  unfolding parse_time
  parse_null none = none
  parse_null (some value) = some (parse_time value)

  unfoldable pub scan_schedule : ScheduleRow → Schedule
  unfolding parse_null
  scan_schedule r = record {
    id = r.id;
    app_name = r.app_name;
    services = split_services r.services;
    cron_expr = r.cron_expr;
    timezone = r.timezone;
    retention_days = r.retention_days;
    retention_count = r.retention_count;
    enabled = r.enabled == 1;
    created_at = parse_time r.created_at;
    updated_at = parse_time r.updated_at;
    last_run_at = parse_null r.last_run_at;
    next_run_at = parse_null r.next_run_at;
    last_status = r.last_status;
    last_message = r.last_message;
  }

  unfoldable pub scan_run : RunRow → Run
  unfolding parse_null
  scan_run r = record {
    id = r.id;
    schedule_id = r.schedule_id;
    app_name = r.app_name;
    services = split_services r.services;
    status = r.status;
    output = r.output;
    started_at = parse_time r.started_at;
    finished_at = parse_null r.finished_at;
  }
