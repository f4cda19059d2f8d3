-- ===== src/Server/Manual.antt =====
-- internal/web/server/server.go: `runManualBackup`, over the tables and the backup service.
use infra_shelf.Common.{
  ℕ, Bytes, Bool, List, [], Option, none, some, Result, ok, err, Error, if◌then◌else◌,
}
use infra_shelf.Common.Text.{codes, trim_space}
use infra_shelf.Scheduler.Rows.{Clock, Db}
use infra_shelf.Scheduler.Store.{start_run, finish_run}
use infra_shelf.Scheduler.Manager.{run_status, run_output}
use infra_shelf.BackupService.{Engine, Setting, World, RunResult, backup}

module _ (c : Clock) (setting : Setting) (engine : Engine) where
  -- The run's error comes before that of its record.
  abbrev ended : Result (Unit {0}) → RunResult × Option Error → RunResult × Option Error
  ended (ok u) (result, e) = (result, e)
  ended (err e) (result, none) = (result, some e)
  ended (err e) (result, some run_error) = (result, some run_error)

  abbrev finished :
      ℕ
      → ℕ
      → Db
      → (RunResult × Option Error) × World engine.State
      → (RunResult × Option Error) × (Db × World engine.State)
  finished run_id at db ((result, e), w) =
      let output = trim_space (run_output setting.message result.log e) in
      let (r, db') = finish_run c run_id (run_status e) output at db in
      (ended r (result, e), (db', w))

  manual_started :
      Bytes
      → Bool
      → List Bytes
      → ℕ
      → Result ℕ × Db
      → World engine.State
      → (RunResult × Option Error) × (Db × World engine.State)
  manual_started app all services at (err e, db) w =
      ((record { files = []; log = [] }, some e), (db, w))
  manual_started app all services at (ok run_id, db) w =
      finished run_id at db (backup setting engine app all services w)

  -- `started` and `at` are the times of the start and of the end.
  pub run_manual_backup :
      Bytes
      → Bool
      → List Bytes
      → ℕ
      → ℕ
      → Db
      → World engine.State
      → (RunResult × Option Error) × (Db × World engine.State)
  unfolding manual_started
  run_manual_backup app all services started at db w =
      let name = if all then codes "*" else app in
      manual_started app all services at (start_run c none name services started db) w
