-- ===== src/Scheduler/Manager/Recorded.antt =====
-- A run of a schedule is recorded from its start to its end.
use infra_shelf.Common.{
  ℕ, Bytes, true, false, [], ◌∷◌, ◌++◌, Option, none, some, is_some, Error, if◌then◌else◌, ◌≡◌,
  refl, sym, ap, ◌∙◌, arith, ◌==◌, ◌+◌, subst,
}
use infra_shelf.Common.Text.{trim_space}
use infra_shelf.Scheduler.Rows.{Clock, Schedule, ScheduleRow, RunRow, Db}
use infra_shelf.Scheduler.Table.{find_row, change_row}
use infra_shelf.Scheduler.Table.Laws.{changed, find_row-snoc, find_row-change, find_above}
use infra_shelf.Scheduler.Store.{schedule_key, run_key, mark_schedule_run}
use infra_shelf.Scheduler.Store.Quiet.{
  quiet, quiet_same, started_row, start_quiet, start_gone, finish_quiet, mark_quiet,
}
use infra_shelf.Scheduler.Store.Invariant.{IsConsistent}
use infra_shelf.Scheduler.Manager.{
  Runner, Times, run, run_started, record_end, run_status, run_output, brief_output, every_app,
  retention,
}

module _ (c : Clock) (runner : Runner) (message : Error → Bytes) where
  -- What the runner is asked, and answers.
  abbrev pub answer : Schedule → runner.State → (Bytes × Option Error) × runner.State
  answer s r =
      let all = every_app s in
      runner.backup_with_retention (if all then [] else s.app_name) all s.services (retention s) r

  abbrev pub started_of : Schedule → Times → ℕ → RunRow
  started_of s times id = started_row c s.id s.app_name s.services times.started id

  abbrev pub ended_row : Bytes → Option Error → Times → RunRow → RunRow
  ended_row log error times row = record row {
    status = run_status error;
    output = trim_space (run_output message log error);
    finished_at = some (c.format times.finished);
  }

  abbrev pub marked_row : Bytes → Option Error → Times → ScheduleRow → ScheduleRow
  marked_row log error times row = record row {
    last_run_at = some (c.format times.ran);
    last_status = run_status error;
    last_message = brief_output (run_output message log error);
    updated_at = c.format times.marked;
  }

  -- What a run leaves: one new run, which has ended, the mark on its schedule, and all else as it was.
  pub record Recorded (s : Schedule) (times : Times) (log : Bytes) (error : Option Error)
      (before after : Db) : Type 0 where
    pub fresh : find_row run_key (before.last_run + 1) before.runs ≡ none
    pub ended :
        find_row run_key (before.last_run + 1) after.runs
        ≡ some (ended_row log error times (started_of s times (before.last_run + 1)))
    pub other_runs :
        (k : ℕ)
        → (before.last_run + 1 == k) ≡ false
        → find_row run_key k after.runs ≡ find_row run_key k before.runs
    pub schedules :
        (k : ℕ)
        → find_row schedule_key k after.schedules
          ≡ changed
              (marked_row log error times)
              (s.id == k)
              (find_row schedule_key k before.schedules)

  record_end-quiet :
      (run_id id : ℕ) (log : Bytes) (error : Option Error) (times : Times) (db : Db)
      → record_end c runner message run_id id
          (run_status error)
          (run_output message log error)
          times
          (quiet db)
        ≡ record (quiet db) {
          runs = change_row run_key run_id (ended_row log error times) db.runs;
          schedules = change_row schedule_key id (marked_row log error times) db.schedules;
        }
  unfolding record_end
  record_end-quiet run_id id log error times db =
      let output = run_output message log error in
      ap
        (λ d.
          (mark_schedule_run c id (run_status error) (brief_output output) times.ran times.marked
            d).1)
        (finish_quiet c run_id (run_status error) (trim_space output) times.finished db)
      ∙ mark_quiet c id (run_status error) (brief_output output) times.ran times.marked
          (record db { runs = change_row run_key run_id (ended_row log error times) db.runs })

  run-quiet :
      (s : Schedule) (times : Times) (db : Db) (r : runner.State)
      → is_some (find_row schedule_key s.id db.schedules) ≡ true
      → let ((log, error), r') = answer s r in
        run c runner message s times (quiet db, r) ≡ (
          record (quiet db) {
            runs =
                change_row run_key
                  (db.last_run + 1)
                  (ended_row log error times)
                  (db.runs ++ started_of s times (db.last_run + 1) ∷ []);
            last_run = db.last_run + 1;
            schedules = change_row schedule_key s.id (marked_row log error times) db.schedules;
          },
          r',
        )
  unfolding run run_started
  run-quiet s times db r h =
      let log = (answer s r).0.0 in
      let error = (answer s r).0.1 in
      ap (λ x. run_started c runner message s times x r)
        (start_quiet c s.id s.app_name s.services times.started db h)
      ∙ ap (λ d. (d, (answer s r).1))
          (record_end-quiet (db.last_run + 1) s.id log error times (record db {
            runs = db.runs ++ started_of s times (db.last_run + 1) ∷ [];
            last_run = db.last_run + 1;
          }))

  recorded :
      (s : Schedule) (times : Times) (log : Bytes) (error : Option Error) (db : Db)
      → IsConsistent db
      → Recorded s times log error db (record (quiet db) {
        runs =
            change_row run_key
              (db.last_run + 1)
              (ended_row log error times)
              (db.runs ++ started_of s times (db.last_run + 1) ∷ []);
        last_run = db.last_run + 1;
        schedules = change_row schedule_key s.id (marked_row log error times) db.schedules;
      })
  recorded s times log error db h =
      let id = db.last_run + 1 in
      let row = started_of s times id in
      let fresh = find_above run_key id 0 db.runs db.last_run h.run_ids (omega arith) in
      record {
        fresh = fresh;
        ended =
            find_row-change run_key id id (ended_row log error times) (db.runs ++ row ∷ [])
              (λ r. refl)
            ∙ ground (arith, find_row-snoc run_key id db.runs row, fresh);
        other_runs = λ k other.
            find_row-change run_key id k (ended_row log error times) (db.runs ++ row ∷ [])
              (λ r. refl)
            ∙ ground (arith, find_row-snoc run_key k db.runs row, other);
        schedules = λ k.
            find_row-change schedule_key s.id k (marked_row log error times) db.schedules
              (λ r. refl);
      }

  -- A run of a schedule that is in consistent tables, when no statement fails: whatever the runner
  -- answers, the run is recorded under a fresh id and has ended, with status, output and times; its
  -- schedule is marked with the same status; every other run and schedule is as it was; and the
  -- runner was asked once.
  pub run_lem :
      (s : Schedule) (times : Times) (db : Db) (r : runner.State)
      → db.faults ≡ []
      → IsConsistent db
      → is_some (find_row schedule_key s.id db.schedules) ≡ true
      → let w = run c runner message s times (db, r) in
        Recorded s times (answer s r).0.0 (answer s r).0.1 db w.0 × (w.1 ≡ (answer s r).1)
  run_lem s times db r calm h there =
      let same =
        ap (λ d. run c runner message s times (d, r)) (sym (quiet_same db calm))
        ∙ run-quiet s times db r there in
      (
        subst (λ d. Recorded s times (answer s r).0.0 (answer s r).0.1 db d)
            (sym (ap (λ w. w.0) same)) (recorded s times (answer s r).0.0 (answer s r).0.1 db h),
        ap (λ w. w.1) same,
      )

  -- A run of a schedule that has been deleted meanwhile: the foreign key refuses its record, and
  -- neither the runner nor a table is touched.
  pub run_gone :
      (s : Schedule) (times : Times) (db : Db) (r : runner.State)
      → db.faults ≡ []
      → find_row schedule_key s.id db.schedules ≡ none
      → run c runner message s times (db, r) ≡ (db, r)
  unfolding run run_started
  run_gone s times db r calm gone =
      ap (λ d. run c runner message s times (d, r)) (sym (quiet_same db calm))
      ∙ ap (λ x. run_started c runner message s times x r)
          (start_gone c s.id s.app_name s.services times.started db gone)
      ∙ ap (λ d. (d, r)) (quiet_same db calm)
