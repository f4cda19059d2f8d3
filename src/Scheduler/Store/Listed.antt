-- ===== src/Scheduler/Store/Listed.antt =====
-- `ListSchedules` lists each schedule once.
use mathlib.Core.List.{reverse, reverse-append}
use infra_shelf.Common.{
  ℕ, Bool, not, List, [], ◌∷◌, ◌++◌, map, filter, Option, none, some, is_some, Result, ok, err,
  Error, ◌==◌, if◌then◌else◌, ◌≡◌, refl, arith, ◌+◌, ◌≤◌,
}
use infra_shelf.Scheduler.Rows.{Clock, Schedule, ScheduleRow, Db, scan_schedule}
use infra_shelf.Scheduler.Table.{find_row}
use infra_shelf.Scheduler.Table.Laws.{IsAscending}
use infra_shelf.Scheduler.Store.{schedule_key, in_order, list_schedules}
use infra_shelf.Scheduler.Store.Invariant.{IsConsistent}

-- How often an id stands among schedules.
abbrev pub count_id : ℕ → List Schedule → ℕ
count_id k [] = 0
count_id k (s ∷ ss) = (if s.id == k then 1 else 0) + count_id k ss

abbrev count_row : ℕ → List ScheduleRow → ℕ
count_row k [] = 0
count_row k (r ∷ rs) = (if r.id == k then 1 else 0) + count_row k rs

count-append :
    (k : ℕ) (xs ys : List ScheduleRow) → count_row k (xs ++ ys) ≡ count_row k xs + count_row k ys
count-append k [] ys = omega arith
count-append k (r ∷ rs) ys = omega (arith, count-append k rs ys)

count-reverse : (k : ℕ) (xs : List ScheduleRow) → count_row k (reverse xs) ≡ count_row k xs
count-reverse k [] = refl
count-reverse k (r ∷ rs) =
    rw (reverse-append (r ∷ []) rs)
      (omega (arith, count-append k (reverse rs) (r ∷ []), count-reverse k rs))

count-filter :
    (k : ℕ) (p : ScheduleRow → Bool) (xs : List ScheduleRow)
    → count_row k (filter p xs) + count_row k (filter (λ r. not (p r)) xs) ≡ count_row k xs
count-filter k p [] = omega arith
count-filter k p (r ∷ rs) = ground (arith, count-filter k p rs)

count-in_order : (k : ℕ) (rows : List ScheduleRow) → count_row k (in_order rows) ≡ count_row k rows
count-in_order k rows =
    let p = λ (r : ScheduleRow). r.enabled == 1 in
    omega (
      arith,
      count-append k (filter p (reverse rows)) (filter (λ r. not (p r)) (reverse rows)),
      count-filter k p (reverse rows),
      count-reverse k rows,
    )

count_ascending :
    (k low : ℕ) (rows : List ScheduleRow) (high : ℕ)
    → IsAscending schedule_key low rows high
    → (count_row k rows ≤ 1) × (k ≤ low → count_row k rows ≡ 0)
count_ascending k low [] high h = (omega arith, λ l. refl)
count_ascending k low (r ∷ rows) high (l, h) =
    let (once, absent) = count_ascending k r.id rows high h in
    (grind (arith, once, absent), λ below. grind (arith, absent))

count-scan :
    (c : Clock) (k : ℕ) (rows : List ScheduleRow)
    → count_id k (map (scan_schedule c) rows) ≡ count_row k rows
unfolding scan_schedule
count-scan c k [] = refl
count-scan c k (r ∷ rows) = omega (arith, count-scan c k rows)

-- No schedule is listed twice.
abbrev pub Once : Result (List Schedule) → Type 0
Once (err x) = Unit
Once (ok ss) = (k : ℕ) → count_id k ss ≤ 1

count-find_row :
    (k low : ℕ) (rows : List ScheduleRow) (high : ℕ)
    → IsAscending schedule_key low rows high
    → count_row k rows ≡ (if is_some (find_row schedule_key k rows) then 1 else 0)
unfolding find_row
count-find_row k low [] high h = refl
count-find_row k low (r ∷ rows) high (l, h) =
    grind (arith, count-find_row k r.id rows high h, (count_ascending k r.id rows high h).1)

-- A list that holds the schedule of each row of the tables once, and no other.
abbrev pub IsListing : Db → Result (List Schedule) → Type 0
IsListing db (err x) = Unit
IsListing db (ok ss) =
    (k : ℕ) → count_id k ss ≡ (if is_some (find_row schedule_key k db.schedules) then 1 else 0)

-- On consistent tables `ListSchedules`, where its statement does not fail, lists each schedule that
-- is there exactly once, and no other.
pub list_schedules-IsListing :
    (c : Clock) (db : Db) → IsConsistent db → IsListing db (list_schedules c db).0
unfolding list_schedules
list_schedules-IsListing c db h = on_faults db.faults
  where
    listed :
        (k : ℕ)
        → count_id k (map (scan_schedule c) (in_order db.schedules))
          ≡ (if is_some (find_row schedule_key k db.schedules) then 1 else 0)
    listed k = omega (
      arith,
      count-scan c k (in_order db.schedules),
      count-in_order k db.schedules,
      count-find_row k 0 db.schedules db.last_schedule h.schedule_ids,
    )

    on_faults :
        (fs : List (Option Error)) → IsListing db (list_schedules c (record db { faults = fs })).0
    on_faults [] = listed
    on_faults (none ∷ fs) = listed
    on_faults (some e ∷ fs) = tt

IsListing-Once : (db : Db) (r : Result (List Schedule)) → IsListing db r → Once r
IsListing-Once db (err x) h = tt
IsListing-Once db (ok ss) h = λ k. ground (arith, h k)

pub list_schedules-Once : (c : Clock) (db : Db) → IsConsistent db → Once (list_schedules c db).0
list_schedules-Once c db h =
    IsListing-Once db (list_schedules c db).0 (list_schedules-IsListing c db h)
