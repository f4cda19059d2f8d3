-- ===== src/Scheduler/Store/Invariant.antt =====
-- The tables stay consistent under every sequence of operations, whatever statements fail.
use infra_shelf.Common.{
  ℕ, Bytes, Bool, true, List, [], ◌∷◌, ◌++◌, Option, none, some, ◌==◌, ◌≡◌, refl, arith, All,
  All-append, Bool-cases, inl, inr, Result, ok, err, Error,
}
use infra_shelf.Scheduler.Rows.{Clock, ScheduleInput, ScheduleRow, RunRow, Db, join_services}
use infra_shelf.Scheduler.Table.{change_row, remove_row}
use infra_shelf.Scheduler.Table.Laws.{
  IsAscending, IsAscending-snoc, IsAscending-change, IsAscending-remove, find_row-snoc,
  find_row-change, find_row-remove,
}
use infra_shelf.Scheduler.Store.{
  Sql, statement, continue, ◌>>=◌, schedule_key, run_key, refers, null_if, set_null,
  require_affected, affected_run, insert_schedule, select_schedule, update_schedule, insert_run,
  get_schedule, create_schedule, set_schedule_enabled, delete_schedule, update_next_run,
  mark_schedule_run, start_run, finish_run, list_schedules,
}

-- The ids ascend up to the last one that was given, and a run refers to no schedule or to one that
-- is there.
pub record Consistent (schedules : List ScheduleRow) (runs : List RunRow)
    (last_schedule last_run : ℕ) : Type 0 where
  pub schedule_ids : IsAscending schedule_key 0 schedules last_schedule
  pub run_ids : IsAscending run_key 0 runs last_run
  pub references : All (λ r. refers r.schedule_id schedules ≡ true) runs

abbrev pub IsConsistent : Db → Type 0
IsConsistent db = Consistent db.schedules db.runs db.last_schedule db.last_run

abbrev pub Keeps {ℓ} : {A : Type ℓ} → Sql A → Type 0
Keeps f = (db : Db) → IsConsistent db → IsConsistent (f db).1

-- A statement keeps what it keeps where it does not fail.
statement-Keeps {ℓ} : {A : Type ℓ} (f : Sql A) → Keeps f → Keeps (statement f)
statement-Keeps f keeps db h = on_faults db.faults
  where
    on_faults :
        (fs : List (Option Error)) → IsConsistent (statement f (record db { faults = fs })).1
    on_faults [] = keeps (record db { faults = [] }) h
    on_faults (none ∷ fs) = keeps (record db { faults = fs }) h
    on_faults (some e ∷ fs) = h

refers-All :
    (before after : List ScheduleRow) (runs : List RunRow)
    → ((id : Option ℕ) → refers id before ≡ true → refers id after ≡ true)
    → All (λ r. refers r.schedule_id before ≡ true) runs
    → All (λ r. refers r.schedule_id after ≡ true) runs
refers-All before after [] more h = tt
refers-All before after (r ∷ runs) more (l, h) =
    (more r.schedule_id l, refers-All before after runs more h)

continue-Keeps {ℓ κ} :
    {A : Type ℓ} {B : Type κ} (r : Result A) (k : A → Sql B)
    → ((a : A) → Keeps (k a))
    → Keeps (continue r k)
continue-Keeps (ok a) k keeps db h = keeps a db h
continue-Keeps (err e) k keeps db h = h

bind-Keeps {ℓ κ} :
    {A : Type ℓ} {B : Type κ} (f : Sql A) (k : A → Sql B)
    → Keeps f
    → ((a : A) → Keeps (k a))
    → Keeps (f >>= k)
bind-Keeps f k first next db h = continue-Keeps (f db).0 k next (f db).1 (first db h)

snoc_refers :
    (rows : List ScheduleRow) (r : ScheduleRow) (id : Option ℕ)
    → refers id rows ≡ true
    → refers id (rows ++ r ∷ []) ≡ true
snoc_refers rows r none l = refl
snoc_refers rows r (some id) l = ground (arith, find_row-snoc schedule_key id rows r)

change_refers :
    (id : ℕ) (f : ScheduleRow → ScheduleRow) (rows : List ScheduleRow) (k : Option ℕ)
    → ((r : ScheduleRow) → (f r).id ≡ r.id)
    → refers k rows ≡ true
    → refers k (change_row schedule_key id f rows) ≡ true
change_refers id f rows none same l = refl
change_refers id f rows (some k) same l =
    ground (arith, find_row-change schedule_key id k f rows same)

insert_schedule-Keeps : (input : ScheduleInput) (now : Bytes) → Keeps (insert_schedule input now)
unfolding insert_schedule
insert_schedule-Keeps input now = statement-Keeps _ λ db h. record {
  schedule_ids =
      IsAscending-snoc schedule_key 0 db.schedules db.last_schedule _ refl h.schedule_ids;
  run_ids = h.run_ids;
  references = refers-All db.schedules _ db.runs (snoc_refers db.schedules _) h.references;
}

select_schedule-Keeps : (id : ℕ) → Keeps (select_schedule id)
unfolding select_schedule
select_schedule-Keeps id = statement-Keeps _ λ db h. h

update_schedule-Keeps :
    (id : ℕ) (f : ScheduleRow → ScheduleRow)
    → ((r : ScheduleRow) → (f r).id ≡ r.id)
    → Keeps (update_schedule id f)
unfolding update_schedule
update_schedule-Keeps id f same = statement-Keeps _ λ db h. record {
  schedule_ids =
      IsAscending-change schedule_key id f 0 db.schedules db.last_schedule same h.schedule_ids;
  run_ids = h.run_ids;
  references =
      refers-All db.schedules _ db.runs (λ k. change_refers id f db.schedules k same) h.references;
}

null_refers :
    (id : ℕ) (rows : List ScheduleRow) (k : Option ℕ)
    → refers k rows ≡ true
    → refers (null_if id k) (remove_row schedule_key id rows) ≡ true
null_refers id rows none l = refl
null_refers id rows (some k) l = elim (Bool-cases (k == id)) [
  | inl this ↦ rw this refl
  | inr other ↦ rw other (ground (arith, find_row-remove schedule_key id k rows))
]

-- a run whose schedule goes refers to none
set_null_keeps :
    (id : ℕ) (rows : List ScheduleRow) (runs : List RunRow)
    → All (λ r. refers r.schedule_id rows ≡ true) runs
    → All (λ r. refers r.schedule_id (remove_row schedule_key id rows) ≡ true) (set_null id runs)
unfolding set_null
set_null_keeps id rows [] h = tt
set_null_keeps id rows (r ∷ runs) (l, h) =
    (null_refers id rows r.schedule_id l, set_null_keeps id rows runs h)

IsAscending-set_null :
    (id low : ℕ) (runs : List RunRow) (high : ℕ)
    → IsAscending run_key low runs high
    → IsAscending run_key low (set_null id runs) high
unfolding set_null
IsAscending-set_null id low [] high h = h
IsAscending-set_null id low (r ∷ runs) high (l, h) = (l, IsAscending-set_null id r.id runs high h)

require_affected-Keeps : (o : Option ScheduleRow) → Keeps (require_affected o)
require_affected-Keeps none db h = h
require_affected-Keeps (some r) db h = h

affected_run-Keeps : (c : Clock) (o : Option RunRow) → Keeps (affected_run c o)
affected_run-Keeps c none db h = h
affected_run-Keeps c (some r) db h = h

delete_schedule-Keeps : (c : Clock) (id : ℕ) → Keeps (delete_schedule c id)
unfolding delete_schedule
delete_schedule-Keeps c id =
    bind-Keeps _ _
      (statement-Keeps _ λ db h. record {
        schedule_ids =
            IsAscending-remove schedule_key id 0 db.schedules db.last_schedule h.schedule_ids;
        run_ids = IsAscending-set_null id 0 db.runs db.last_run h.run_ids;
        references = set_null_keeps id db.schedules db.runs h.references;
      })
      require_affected-Keeps

change_run_refers :
    (id : ℕ) (f : RunRow → RunRow) (rows : List ScheduleRow) (runs : List RunRow)
    → ((r : RunRow) → (f r).schedule_id ≡ r.schedule_id)
    → All (λ r. refers r.schedule_id rows ≡ true) runs
    → All (λ r. refers r.schedule_id rows ≡ true) (change_row run_key id f runs)
unfolding change_row
change_run_refers id f rows [] same h = tt
change_run_refers id f rows (r ∷ runs) same (l, h) = elim (Bool-cases (r.id == id)) [
  | inl this ↦ rw this (rw (same r) l, change_run_refers id f rows runs same h)
  | inr other ↦ rw other (l, change_run_refers id f rows runs same h)
]

insert_run-Keeps :
    (id : Option ℕ) (app services started : Bytes) → Keeps (insert_run id app services started)
unfolding insert_run
insert_run-Keeps id app services started = statement-Keeps _ λ db h.
    elim (Bool-cases (refers id db.schedules)) [
      | inl there ↦ rw there (record {
        schedule_ids = h.schedule_ids;
        run_ids = IsAscending-snoc run_key 0 db.runs db.last_run _ refl h.run_ids;
        references = All-append _ db.runs _ h.references (there, tt);
      })
      | inr dangling ↦ rw dangling h
    ]

finish_run-Keeps :
    (c : Clock) (id : ℕ) (status output : Bytes) (now : ℕ)
    → Keeps (finish_run c id status output now)
unfolding finish_run
finish_run-Keeps c id status output now =
    bind-Keeps _ _
      (statement-Keeps _ λ db h. record {
        schedule_ids = h.schedule_ids;
        run_ids = IsAscending-change run_key id _ 0 db.runs db.last_run (λ r. refl) h.run_ids;
        references = change_run_refers id _ db.schedules db.runs (λ r. refl) h.references;
      })
      (affected_run-Keeps c)

get_schedule-Keeps : (c : Clock) (id : ℕ) → Keeps (get_schedule c id)
unfolding get_schedule
get_schedule-Keeps c id = bind-Keeps _ _ (select_schedule-Keeps id) (λ r db h. h)

pub list_schedules-Keeps : (c : Clock) → Keeps (list_schedules c)
unfolding list_schedules
list_schedules-Keeps c = statement-Keeps _ (λ db h. h)

create_schedule-Keeps :
    (c : Clock) (input : ScheduleInput) (now : ℕ) → Keeps (create_schedule c input now)
unfolding create_schedule
create_schedule-Keeps c input now =
    bind-Keeps _ (get_schedule c) (insert_schedule-Keeps input (c.format now))
      (get_schedule-Keeps c)

set_schedule_enabled-Keeps :
    (c : Clock) (id : ℕ) (enabled : Bool) (now : ℕ) → Keeps (set_schedule_enabled c id enabled now)
unfolding set_schedule_enabled
set_schedule_enabled-Keeps c id enabled now =
    bind-Keeps _ _ (update_schedule-Keeps id _ (λ r. refl)) require_affected-Keeps

update_next_run-Keeps : (c : Clock) (id next now : ℕ) → Keeps (update_next_run c id next now)
unfolding update_next_run
update_next_run-Keeps c id next now =
    bind-Keeps _ _ (update_schedule-Keeps id _ (λ r. refl)) (λ o db h. h)

mark_schedule_run-Keeps :
    (c : Clock) (id : ℕ) (status message : Bytes) (ran_at now : ℕ)
    → Keeps (mark_schedule_run c id status message ran_at now)
unfolding mark_schedule_run
mark_schedule_run-Keeps c id status message ran_at now =
    bind-Keeps _ _ (update_schedule-Keeps id _ (λ r. refl)) (λ o db h. h)

-- A call of one of the operations that write.
pub data Command : Type 0 where
  create : ScheduleInput → ℕ → Command
  enable : ℕ → Bool → ℕ → Command
  remove : ℕ → Command
  next_run : ℕ → ℕ → ℕ → Command
  mark : ℕ → Bytes → Bytes → ℕ → ℕ → Command
  start : Option ℕ → Bytes → List Bytes → ℕ → Command
  finish : ℕ → Bytes → Bytes → ℕ → Command

abbrev pub perform : Clock → Command → Db → Db
perform c (create input now) db = (create_schedule c input now db).1
perform c (enable id enabled now) db = (set_schedule_enabled c id enabled now db).1
perform c (remove id) db = (delete_schedule c id db).1
perform c (next_run id next now) db = (update_next_run c id next now db).1
perform c (mark id status message ran_at now) db =
    (mark_schedule_run c id status message ran_at now db).1
perform c (start schedule_id app_name services now) db =
    (start_run c schedule_id app_name services now db).1
perform c (finish id status output now) db = (finish_run c id status output now db).1

abbrev pub perform_all : Clock → List Command → Db → Db
perform_all c [] db = db
perform_all c (k ∷ ks) db = perform_all c ks (perform c k db)

pub perform_keeps :
    (c : Clock) (k : Command) (db : Db) → IsConsistent db → IsConsistent (perform c k db)
unfolding start_run
perform_keeps c (create input now) = create_schedule-Keeps c input now
perform_keeps c (enable id enabled now) = set_schedule_enabled-Keeps c id enabled now
perform_keeps c (remove id) = delete_schedule-Keeps c id
perform_keeps c (next_run id next now) = update_next_run-Keeps c id next now
perform_keeps c (mark id status message ran_at now) =
    mark_schedule_run-Keeps c id status message ran_at now
perform_keeps c (start schedule_id app_name services now) =
    insert_run-Keeps schedule_id app_name (join_services services) (c.format now)
perform_keeps c (finish id status output now) = finish_run-Keeps c id status output now

-- Every sequence of calls of the store's operations, whatever statements fail in it, keeps the
-- tables consistent: the ids ascend up to the last one given, for schedules and for runs, and each
-- run refers to no schedule or to one that is there.
pub perform_all-IsConsistent :
    (c : Clock) (ks : List Command) (db : Db) → IsConsistent db → IsConsistent (perform_all c ks db)
perform_all-IsConsistent c [] db h = h
perform_all-IsConsistent c (k ∷ ks) db h =
    perform_all-IsConsistent c ks (perform c k db) (perform_keeps c k db h)
