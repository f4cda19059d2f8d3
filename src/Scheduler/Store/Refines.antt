-- ===== src/Scheduler/Store/Refines.antt =====
-- The tables implement a map from ids to schedules.
use infra_shelf.Common.{
  ℕ, Bool, true, false, List, [], ◌∷◌, ◌++◌, Option, none, some, ◌==◌, if◌then◌else◌, ◌+◌, ◌≡◌,
  refl, sym, ap, ◌∙◌, arith, subst, All, Result, ok, err, no_rows,
}
use infra_shelf.Registry.Names.Laws.{IsService}
use infra_shelf.Scheduler.Rows.{
  Clock, Schedule, ScheduleInput, ScheduleRow, RunRow, Db, bool_int, scan_schedule, parse_time,
  parse_null,
}
use infra_shelf.Scheduler.Table.{find_row, change_row, remove_row}
use infra_shelf.Scheduler.Table.Laws.{
  find_row-snoc, find_row-change, find_row-remove, find_above, changed,
}
use infra_shelf.Scheduler.Store.{
  schedule_key, refers, insert_schedule, select_schedule, update_schedule, insert_run, get_schedule,
  create_schedule, set_schedule_enabled, delete_schedule, update_next_run, mark_schedule_run,
  start_run, finish_run, new_row, require_affected, affected_run, continue, selected, get_selected,
}
use infra_shelf.Scheduler.Store.Invariant.{
  IsConsistent, Command, create, enable, remove, next_run, mark, start, finish, perform,
  perform_all, perform_keeps,
}
use infra_shelf.Scheduler.Store.Services.{split_services-join_services}

-- The abstract store: the last id that was given, and the schedule of each id.
pub record Schedules : Type 0 where
  pub last : ℕ
  pub at : ℕ → Option Schedule

abbrev pub new_schedule : ScheduleInput → ℕ → ℕ → Schedule
new_schedule input now id = record {
  id = id;
  app_name = input.app_name;
  services = input.services;
  cron_expr = input.cron_expr;
  timezone = input.timezone;
  retention_days = input.retention_days;
  retention_count = input.retention_count;
  enabled = input.enabled;
  created_at = now;
  updated_at = now;
  last_run_at = none;
  next_run_at = none;
  last_status = [];
  last_message = [];
}

abbrev pub change_at : ℕ → (Schedule → Schedule) → Schedules → Schedules
change_at id f s = record s { at = λ k. changed f (id == k) (s.at k) }

-- What a call does to the abstract store. Runs are no part of it.
abbrev pub specified : Command → Schedules → Schedules
specified (create input now) s =
    let id = s.last + 1 in
    record { last = id; at = λ k. if id == k then some (new_schedule input now id) else s.at k }
specified (enable id enabled now) s =
    change_at id (λ (r : Schedule). record r { enabled = enabled; updated_at = now }) s
specified (remove id) s = record s { at = λ k. if id == k then none else s.at k }
specified (next_run id next now) s =
    change_at id (λ (r : Schedule). record r { next_run_at = some next; updated_at = now }) s
specified (mark id status message ran_at now) s =
    change_at id
      (λ (r : Schedule). record r {
        last_run_at = some ran_at;
        last_status = status;
        last_message = message;
        updated_at = now;
      })
      s
specified (start schedule_id app_name services now) s = s
specified (finish id status output now) s = s

abbrev pub specified_all : List Command → Schedules → Schedules
specified_all [] s = s
specified_all (k ∷ ks) s = specified_all ks (specified k s)

-- The services of a schedule that is created are services, as the callers of the store see to.
abbrev pub IsChecked : Command → Type 0
IsChecked (create input now) = All IsService input.services
IsChecked _ = Unit

module _ (c : Clock) where
  abbrev scanned : Option ScheduleRow → Option Schedule
  scanned none = none
  scanned (some r) = some (scan_schedule c r)

  -- What `GetSchedule` finds.
  abbrev pub view : List ScheduleRow → ℕ → Option Schedule
  view rows id = scanned (find_row schedule_key id rows)

  -- The tables stand for the abstract store, and no statement is about to fail.
  pub record Refines (db : Db) (s : Schedules) : Type 0 where
    pub calm : db.faults ≡ []
    pub last : db.last_schedule ≡ s.last
    pub at : (id : ℕ) → view db.schedules id ≡ s.at id

  time_back : (t : ℕ) → parse_time c (c.format t) ≡ t
  unfolding parse_time
  time_back t = rw (c.parse-format t) refl

  bool_back : (b : Bool) → (bool_int b == 1) ≡ b
  bool_back true = refl
  bool_back false = refl

  scan-new_row :
      (input : ScheduleInput) (now id : ℕ)
      → All IsService input.services
      → scan_schedule c (new_row input (c.format now) id) ≡ new_schedule input now id
  unfolding scan_schedule parse_null
  scan-new_row input now id h =
      cc (split_services-join_services input.services h, time_back now, bool_back input.enabled)

  -- the database with no fault to come
  abbrev quiet : Db → Db
  quiet db = record db { faults = [] }

  changed_view :
      (f : ScheduleRow → ScheduleRow) (g : Schedule → Schedule) (b : Bool) (o : Option ScheduleRow)
      → ((r : ScheduleRow) → scan_schedule c (f r) ≡ g (scan_schedule c r))
      → scanned (changed f b o) ≡ changed g b (scanned o)
  changed_view f g b none same = refl
  changed_view f g true (some r) same = ap some (same r)
  changed_view f g false (some r) same = refl

  view-change :
      (id : ℕ) (f : ScheduleRow → ScheduleRow) (g : Schedule → Schedule) (rows : List ScheduleRow)
      → ((r : ScheduleRow) → (f r).id ≡ r.id)
      → ((r : ScheduleRow) → scan_schedule c (f r) ≡ g (scan_schedule c r))
      → (k : ℕ) → view (change_row schedule_key id f rows) k ≡ changed g (id == k) (view rows k)
  view-change id f g rows key same k =
      ap scanned (find_row-change schedule_key id k f rows key)
      ∙ changed_view f g (id == k) (find_row schedule_key k rows) same

  view-remove :
      (id : ℕ) (rows : List ScheduleRow) (k : ℕ)
      → view (remove_row schedule_key id rows) k ≡ (if id == k then none else view rows k)
  view-remove id rows k = ground (arith, find_row-remove schedule_key id k rows)

  view-snoc :
      (rows : List ScheduleRow) (last : ℕ) (r : ScheduleRow)
      → find_row schedule_key (last + 1) rows ≡ none
      → r.id ≡ last + 1
      → (k : ℕ)
      → view (rows ++ r ∷ []) k ≡ (if last + 1 == k then some (scan_schedule c r) else view rows k)
  view-snoc rows last r fresh id k = ground (arith, find_row-snoc schedule_key k rows r)

  affected_same : (o : Option ScheduleRow) (db : Db) → (require_affected o db).1 ≡ db
  affected_same none db = refl
  affected_same (some r) db = refl

  affected_run_same : (o : Option RunRow) (db : Db) → (affected_run c o db).1 ≡ db
  affected_run_same none db = refl
  affected_run_same (some r) db = refl

  if_same :
      (b : Bool) (x y : Result ℕ × Db) (s : Schedules)
      → Refines x.1 s
      → Refines y.1 s
      → let r = if b then x else y in Refines r.1 s
  if_same true x y s r r' = r
  if_same false x y s r r' = r'

  Refines-change :
      (id : ℕ) (f : ScheduleRow → ScheduleRow) (g : Schedule → Schedule) (db : Db) (s : Schedules)
      → ((r : ScheduleRow) → (f r).id ≡ r.id)
      → ((r : ScheduleRow) → scan_schedule c (f r) ≡ g (scan_schedule c r))
      → Refines db s
      → Refines
          (record (quiet db) { schedules = change_row schedule_key id f db.schedules })
          (change_at id g s)
  Refines-change id f g db s key same r = record {
    calm = refl;
    last = r.last;
    at = λ k. view-change id f g db.schedules key same k ∙ ap (changed g (id == k)) (r.at k);
  }

  selected_same :
      (o : Option ScheduleRow) (db : Db) → (continue (selected o) (get_selected c) db).1 ≡ db
  selected_same none db = refl
  selected_same (some r) db = refl

  create-Refines :
      (input : ScheduleInput) (now : ℕ) (db : Db) (s : Schedules)
      → IsConsistent db
      → All IsService input.services
      → Refines db s
      → Refines (perform c (create input now) (quiet db)) (specified (create input now) s)
  unfolding create_schedule get_schedule insert_schedule select_schedule
  create-Refines input now db s consistent services r =
      let row = new_row input (c.format now) (db.last_schedule + 1) in
      let fresh =
        find_above schedule_key (db.last_schedule + 1) 0 db.schedules db.last_schedule
          consistent.schedule_ids (omega arith) in
      subst (λ d. Refines d (specified (create input now) s)) (sym (selected_same _ _))
        (record {
          calm = refl;
          last = ap (λ n. n + 1) r.last;
          at = λ k.
              view-snoc db.schedules db.last_schedule row fresh refl k
              ∙ cc (scan-new_row input now (db.last_schedule + 1) services, r.last, r.at k);
        })

  perform-quiet :
      (k : Command) (db : Db) (s : Schedules)
      → IsConsistent db
      → IsChecked k
      → Refines db s
      → Refines (perform c k (quiet db)) (specified k s)
  unfolding set_schedule_enabled update_schedule update_next_run mark_schedule_run delete_schedule
      start_run finish_run insert_run scan_schedule parse_null
  perform-quiet (create input now) db s h checked r = create-Refines input now db s h checked r
  perform-quiet (enable id b now) db s h checked r =
      subst (λ d. Refines d (specified (enable id b now) s)) (sym (affected_same _ _))
        (Refines-change id _ _ db s (λ r. refl) (λ row. cc (bool_back b, time_back now)) r)
  perform-quiet (remove id) db s h checked r =
      subst (λ d. Refines d (specified (remove id) s)) (sym (affected_same _ _))
        (record {
          calm = refl;
          last = r.last;
          at = λ k. view-remove id db.schedules k ∙ ap (λ o. if id == k then none else o) (r.at k);
        })
  perform-quiet (next_run id next now) db s h checked r =
      Refines-change id _ _ db s (λ r. refl) (λ row. cc (time_back next, time_back now)) r
  perform-quiet (mark id status message ran_at now) db s h checked r =
      Refines-change id _ _ db s (λ r. refl) (λ row. cc (time_back ran_at, time_back now)) r
  perform-quiet (start schedule_id app services now) db s h checked r =
      if_same (refers schedule_id db.schedules) _ _ s
        (record { calm = refl; last = r.last; at = r.at })
        (record { calm = refl; last = r.last; at = r.at })
  perform-quiet (finish id status output now) db s h checked r =
      subst (λ d. Refines d s) (sym (affected_run_same _ _))
        (record { calm = refl; last = r.last; at = r.at })

  quiet_same : (db : Db) → db.faults ≡ [] → quiet db ≡ db
  quiet_same db h = ap (λ fs. record db { faults = fs }) (sym h)

-- The outcome of a look at the abstract store.
abbrev pub found : Option Schedule → Result Schedule
found none = err no_rows
found (some s) = ok s

get_selected-found :
    (c : Clock) (o : Option ScheduleRow) (db : Db)
    → (continue (selected o) (get_selected c) db).0 ≡ found (scanned c o)
get_selected-found c none db = refl
get_selected-found c (some r) db = refl

get_quiet :
    (c : Clock) (id : ℕ) (db : Db)
    → (get_schedule c id (quiet c db)).0 ≡ found (view c db.schedules id)
unfolding get_schedule select_schedule
get_quiet c id db = get_selected-found c (find_row schedule_key id db.schedules) (quiet c db)

get-Refines :
    (c : Clock) (id : ℕ) (db : Db) (s : Schedules)
    → Refines c db s
    → (get_schedule c id db).0 ≡ found (s.at id)
get-Refines c id db s r =
    ap (λ d. (get_schedule c id d).0) (sym (quiet_same c db r.calm))
    ∙ get_quiet c id db
    ∙ ap found (r.at id)

perform_all-Refines :
    (c : Clock) (ks : List Command) (db : Db) (s : Schedules)
    → IsConsistent db
    → All IsChecked ks
    → Refines c db s
    → Refines c (perform_all c ks db) (specified_all ks s)
perform_all-Refines c [] db s h checked r = r
perform_all-Refines c (k ∷ ks) db s h (now, later) r =
    perform_all-Refines c ks (perform c k db) (specified k s) (perform_keeps c k db h) later (
      subst (λ d. Refines c (perform c k d) (specified k s)) (quiet_same c db r.calm)
        (perform-quiet c k db s h now r))

-- The store implements a map from ids to schedules: on consistent tables that stand for such a map,
-- after every sequence of calls in which no statement fails and the services written are services,
-- `GetSchedule` answers for every id what the specification of the calls has there, with all the
-- fields, and ErrNoRows where it has nothing.
pub perform_all-get_schedule :
    (c : Clock) (ks : List Command) (db : Db) (s : Schedules) (id : ℕ)
    → IsConsistent db
    → All IsChecked ks
    → Refines c db s
    → (get_schedule c id (perform_all c ks db)).0 ≡ found ((specified_all ks s).at id)
perform_all-get_schedule c ks db s id h checked r =
    get-Refines c id (perform_all c ks db) (specified_all ks s)
      (perform_all-Refines c ks db s h checked r)
