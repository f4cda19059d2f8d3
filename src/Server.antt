-- ===== src/Server.antt =====
-- internal/web/server/server.go: the handlers of the schedules. A redirect is kept as the values
-- that it is made of, and so is a request.
pub mod Forms
pub mod Pages
pub mod Checks
pub mod Manual
use infra_shelf.Common.{
  ℕ, Bytes, Bool, true, false, not, List, [], ◌∷◌, ◌++◌, Option, none, some, Result, ok, err, Error,
  if◌then◌else◌,
}
use infra_shelf.Common.Text.{codes, is_empty, str_eq, trim_space}
use infra_shelf.Registry.{App}
use infra_shelf.Registry.Names.{validate_app_name, parse_services}
use infra_shelf.Scheduler.Rows.{Clock, Schedule, ScheduleInput, Db}
use infra_shelf.Scheduler.Store.{create_schedule, set_schedule_enabled, delete_schedule}
use infra_shelf.Scheduler.Jobs.{Cron, Manager, reload, validate}
use infra_shelf.Server.Forms.{parse_non_negative_int}

-- The form of a new schedule; `failed` is the error of `ParseForm`, if there is one.
pub record Form : Type 0 where
  pub failed : Option Error
  pub app_name : Bytes
  pub services : List Bytes
  pub cron_expr : Bytes
  pub timezone : Bytes
  pub retention_days : Bytes
  pub retention_count : Bytes

-- A redirect to the schedules, with its message.
pub data Redirect : Type 0 where
  success error : Bytes → Redirect

-- What the checks of a form give: the message that refuses it, or what to insert.
pub data Checked (A : Type 0) : Type 0 where
  refused : Bytes → Checked A
  accepted : A → Checked A

infixl 5 ◌>>=◌
abbrev ◌>>=◌ : {A B : Type 0} → Checked A → (A → Checked B) → Checked B
refused e >>= f = refused e
accepted a >>= f = f a

infixl 5 ◌>>◌
abbrev ◌>>◌ : {A B : Type 0} → Checked A → Checked B → Checked B
x >> y = x >>= λ _. y

module _ (message : Error → Bytes) where
  -- The message of an error is its own, or a fixed one.
  abbrev or_refuse : {A : Type 0} → (Error → Bytes) → Result A → Checked A
  or_refuse say (err e) = refused (say e)
  or_refuse say (ok a) = accepted a

  abbrev must_be_found : Option App → Checked (Unit {0})
  must_be_found none = refused (codes "app not found")
  must_be_found (some a) = accepted tt

  abbrev unless_failed : Option Error → Checked (Unit {0})
  unless_failed (some e) = refused (message e)
  unless_failed none = accepted tt

  unfoldable pub check_app : (Bytes → Result (Option App)) → Bytes → Checked (Unit {0})
  check_app get_app app_name = if str_eq app_name (codes "*") then accepted tt else do
    or_refuse (λ _. codes "invalid app name") (validate_app_name app_name)
    found ← or_refuse message (get_app app_name)
    must_be_found found

  unfoldable pub check_cron : Cron → Bytes → Checked (Unit {0})
  check_cron cron expr =
      if is_empty expr
      then refused (codes "cron expression is required")
      else or_refuse (λ _. codes "invalid cron expression") (validate cron expr)

  -- The checks of `createSchedule`, up to the insert; `fallback` is the time zone of the server.
  unfoldable pub check_form :
      Cron → (Bytes → Result (Option App)) → Bytes → Form → Checked ScheduleInput
  unfolding check_app check_cron
  check_form cron get_app fallback form =
      let named = trim_space form.app_name in
      let app_name = if is_empty named then codes "*" else named in
      let cron_expr = trim_space form.cron_expr in
      let zone = trim_space form.timezone in
      let timezone = if is_empty zone then fallback else zone in
      do
        unless_failed form.failed
        check_app get_app app_name
        services ← or_refuse message (parse_services form.services)
        check_cron cron cron_expr
        or_refuse (λ _. codes "invalid timezone") (cron.load_location timezone)
        accepted record {
          app_name = app_name;
          services = services;
          cron_expr = cron_expr;
          timezone = timezone;
          retention_days = parse_non_negative_int form.retention_days 30;
          retention_count = parse_non_negative_int form.retention_count 0;
          enabled = true;
        }

  module _ (c : Clock) (cron : Cron) (here : Bytes) where
    abbrev reloaded :
        Bytes → Result (Unit {0}) × Manager c cron here → Redirect × Manager c cron here
    reloaded done (err e, m) = (error (message e), m)
    reloaded done (ok u, m) = (success done, m)

    -- What follows a change of the tables.
    abbrev after_change :
        {A : Type 0}
        → Bytes
        → ℕ
        → Result A × Db
        → Manager c cron here
        → Redirect × Manager c cron here
    after_change done now (err e, db) m = (error (message e), record m { db = db })
    after_change done now (ok a, db) m =
        reloaded done (reload c cron here now (record m { db = db }))

    create_checked :
        ℕ → Checked ScheduleInput → Manager c cron here → Redirect × Manager c cron here
    create_checked now (refused e) m = (error e, m)
    create_checked now (accepted input) m =
        after_change (codes "schedule created") now (create_schedule c input now m.db) m

    pub create_schedule_page :
        (Bytes → Result (Option App))
        → Bytes
        → Form
        → ℕ
        → Manager c cron here
        → Redirect × Manager c cron here
    unfolding create_checked check_form
    create_schedule_page get_app fallback form now m =
        create_checked now (check_form cron get_app fallback form) m

    -- `pathID` reads the id; no schedule has a negative one.
    pub set_enabled_page :
        Result ℕ → Bool → ℕ → Manager c cron here → Redirect × Manager c cron here
    set_enabled_page (err e) enabled now m = (error (message e), m)
    set_enabled_page (ok id) enabled now m =
        after_change (codes "schedule updated") now (set_schedule_enabled c id enabled now m.db) m

    pub pause_schedule : Result ℕ → ℕ → Manager c cron here → Redirect × Manager c cron here
    pause_schedule id now m = set_enabled_page id false now m

    pub resume_schedule : Result ℕ → ℕ → Manager c cron here → Redirect × Manager c cron here
    resume_schedule id now m = set_enabled_page id true now m

    pub delete_schedule_page : Result ℕ → ℕ → Manager c cron here → Redirect × Manager c cron here
    delete_schedule_page (err e) now m = (error (message e), m)
    delete_schedule_page (ok id) now m =
        after_change (codes "schedule deleted") now (delete_schedule c id m.db) m
