-- ===== src/Scheduler/Jobs/Reloaded.antt =====
-- After `Reload` the jobs are those of the enabled schedules.
use infra_shelf.Common.{
  ℕ, Bytes, Bool, true, false, ◌||◌, List, [], ◌∷◌, ◌++◌, append_assoc, append-nil, map, Result, ok,
  err, filter, not, ◌==◌, ◌≡◌, refl, sym, ap, ◌∙◌, if◌then◌else◌, ◌≤◌, ◌+◌, All, All-append, arith,
  subst, Bool-cases, inl, inr,
}
use infra_shelf.Scheduler.Rows.{Clock, Schedule, Db}
use infra_shelf.Scheduler.Store.{list_schedules}
use infra_shelf.Scheduler.Store.Invariant.{IsConsistent}
use infra_shelf.Scheduler.Store.Listed.{count_id, Once, list_schedules-Once}
use infra_shelf.Scheduler.Jobs.{
  Job, Cron, Manager, set_entry, remove_all, spec_of, added, add_located, add_schedule, add_enabled,
  reload_listed, reload,
}

-- Some schedule has the entry.
abbrev pub has_entry : ℕ → List (ℕ × ℕ) → Bool
has_entry e [] = false
has_entry e ((k, x) ∷ rest) = x == e || has_entry e rest

abbrev pub has_key : ℕ → List (ℕ × ℕ) → Bool
has_key k [] = false
has_key k ((l, x) ∷ rest) = l == k || has_key k rest

-- What a job runs, and when.
abbrev pub shown : List Job → List (Bytes × ℕ)
shown js = map (λ j. (j.spec, j.schedule)) js

module _ (c : Clock) (cron : Cron) (here : Bytes) where
  -- The jobs that the enabled schedules ask for: those whose time zone and spec are understood.
  abbrev pub wanted_at : Schedule → Result Bytes → List (Bytes × ℕ)
  wanted_at s (err x) = []
  wanted_at s (ok location) =
      let spec = spec_of c cron here location s in if cron.valid spec then (spec, s.id) ∷ [] else []

  abbrev pub wanted : List Schedule → List (Bytes × ℕ)
  wanted [] = []
  wanted (s ∷ ss) =
      (if s.enabled then wanted_at s (cron.load_location s.timezone) else []) ++ wanted ss

  -- Every job of the library is one of the entries.
  abbrev pub IsTracked : Manager c cron here → Type 0
  IsTracked m = All (λ j. has_entry j.entry m.entries ≡ true) (cron.jobs m.jobs)

  filter_tracked :
      (id e : ℕ) (rest : List (ℕ × ℕ)) (js : List Job)
      → All (λ j. has_entry j.entry ((id, e) ∷ rest) ≡ true) js
      → All (λ j. has_entry j.entry rest ≡ true) (filter (λ j. not (j.entry == e)) js)
  filter_tracked id e rest [] h = tt
  filter_tracked id e rest (j ∷ js) (l, h) = ground (arith, filter_tracked id e rest js h)

  remove_all_lem :
      (es : List (ℕ × ℕ)) (s : cron.State)
      → All (λ j. has_entry j.entry es ≡ true) (cron.jobs s)
      → cron.jobs (remove_all c cron here es s) ≡ []
  unfolding remove_all
  remove_all_lem [] s h = none_left (cron.jobs s) h
    where
      none_left : (js : List Job) → All (λ j. false ≡ true) js → js ≡ []
      none_left [] h = refl
      none_left (j ∷ js) (l, h) = absurd (cc l)
  remove_all_lem ((id, e) ∷ es) s h =
      remove_all_lem es (cron.remove e s)
        (rw (cron.jobs-remove e s) (filter_tracked id e es (cron.jobs s) h))

  has_entry-set :
      (x id e : ℕ) (es : List (ℕ × ℕ))
      → has_key id es ≡ false
      → has_entry x (set_entry c cron here id e es) ≡ (has_entry x es || e == x)
  unfolding set_entry
  has_entry-set x id e [] h = ground arith
  has_entry-set x id e ((k, y) ∷ es) h = ground (arith, has_entry-set x id e es)

  has_key-set :
      (k id e : ℕ) (es : List (ℕ × ℕ))
      → has_key k (set_entry c cron here id e es) ≡ (has_key k es || id == k)
  unfolding set_entry
  has_key-set k id e [] = ground arith
  has_key-set k id e ((l, y) ∷ es) = ground (arith, has_key-set k id e es)

  -- What a manager has, before the schedules `ss` are added: its jobs are tracked, and no schedule
  -- has its entry yet or comes twice.
  pub record Ready (ss : List Schedule) (m : Manager c cron here) : Type 0 where
    pub tracked : IsTracked m
    pub once : (k : ℕ) → count_id k ss + (if has_key k m.entries then 1 else 0) ≤ 1

  -- The jobs of `m` and the jobs `js`, and the schedules `ss` still to come.
  record Added (ss : List Schedule) (m : Manager c cron here) (js : List (Bytes × ℕ))
      (m' : Manager c cron here) : Type 0 where
    jobs : shown (cron.jobs m'.jobs) ≡ shown (cron.jobs m.jobs) ++ js
    ready : Ready ss m'

  Ready-tail :
      (s : Schedule) (ss : List Schedule) (m : Manager c cron here) → Ready (s ∷ ss) m → Ready ss m
  Ready-tail s ss m r = record { tracked = r.tracked; once = λ k. grind (arith, r.once k) }

  tracked_again :
      (id e : ℕ) (es : List (ℕ × ℕ)) (js : List Job)
      → has_key id es ≡ false
      → All (λ j. has_entry j.entry es ≡ true) js
      → All (λ j. has_entry j.entry (set_entry c cron here id e es) ≡ true) js
  tracked_again id e es [] h t = tt
  tracked_again id e es (j ∷ js) h (l, t) =
      (ground (arith, has_entry-set j.entry id e es h), tracked_again id e es js h t)

  no_key :
      (s : Schedule) (ss : List Schedule) (m : Manager c cron here)
      → Ready (s ∷ ss) m
      → has_key s.id m.entries ≡ false
  no_key s ss m r = grind (arith, r.once s.id)

  shown-snoc :
      (js : List Job) (j : Job) → shown (js ++ j ∷ []) ≡ shown js ++ (j.spec, j.schedule) ∷ []
  shown-snoc [] j = refl
  shown-snoc (i ∷ js) j = ap (λ r. (i.spec, i.schedule) ∷ r) (shown-snoc js j)

  added_valid :
      (s : Schedule) (ss : List Schedule) (location : Bytes) (now e : ℕ) (jobs : cron.State)
      (m : Manager c cron here)
      → Ready (s ∷ ss) m
      → cron.jobs jobs
        ≡ cron.jobs m.jobs
          ++ record { entry = e; spec = spec_of c cron here location s; schedule = s.id } ∷ []
      → Added ss m
          ((spec_of c cron here location s, s.id) ∷ [])
          (added c cron here location s now (ok e, jobs) m).1
  unfolding added
  added_valid s ss location now e jobs m r j = record {
    jobs = ap shown j ∙ shown-snoc (cron.jobs m.jobs) _;
    ready = record {
      tracked = rw j (
          All-append _ (cron.jobs m.jobs) _
            (tracked_again s.id e m.entries (cron.jobs m.jobs) (no_key s ss m r) r.tracked)
            (ground (arith, has_entry-set e s.id e m.entries (no_key s ss m r)), tt));
      once = λ k. grind (arith, has_key-set k s.id e m.entries, r.once k);
    };
  }

  -- a schedule that adds no job
  skipped :
      (s : Schedule) (ss : List Schedule) (m m' : Manager c cron here)
      → m'.entries ≡ m.entries
      → cron.jobs m'.jobs ≡ cron.jobs m.jobs
      → Ready (s ∷ ss) m
      → Added ss m [] m'
  skipped s ss m m' es js r =
      let rest = Ready-tail s ss m r in
      record {
        jobs = ap shown js ∙ sym (append-nil (shown (cron.jobs m.jobs)));
        ready = record { tracked = rw (js, es) rest.tracked; once = λ k. rw es (rest.once k) };
      }

  add_located_lem :
      (s : Schedule) (ss : List Schedule) (now : ℕ) (l : Result Bytes) (m : Manager c cron here)
      → Ready (s ∷ ss) m
      → Added ss m (wanted_at s l) (add_located c cron here s now l m).1
  unfolding add_located added
  add_located_lem s ss now (err x) m r = skipped s ss m m refl refl r
  add_located_lem s ss now (ok location) m r =
      let spec = spec_of c cron here location s in
      let out = cron.add_func spec s.id m.jobs in
      elim (Bool-cases (cron.valid spec)) [
        | inl good ↦
            let (e, got, jobs) = cron.add_valid spec s.id m.jobs good in
            rw good (
              subst (λ p. Added ss m ((spec, s.id) ∷ []) (added c cron here location s now p m).1)
                (ap (λ r. (r, out.1)) (sym got)) (added_valid s ss location now e out.1 m r jobs))
        | inr bad ↦
            let (x, got, jobs) = cron.add_invalid spec s.id m.jobs bad in
            rw bad (
              subst (λ p. Added ss m [] (added c cron here location s now p m).1)
                (ap (λ r. (r, out.1)) (sym got))
                (skipped s ss m (record m { jobs = out.1 }) refl jobs r))
      ]

  add_one_lem :
      (s : Schedule) (ss : List Schedule) (now : ℕ) (b : Bool) (m : Manager c cron here)
      → Ready (s ∷ ss) m
      → Added ss m
          (if b then wanted_at s (cron.load_location s.timezone) else [])
          (if b then (add_schedule c cron here s now m).1 else m)
  unfolding add_schedule
  add_one_lem s ss now true m r = add_located_lem s ss now (cron.load_location s.timezone) m r
  add_one_lem s ss now false m r = skipped s ss m m refl refl r

  add_enabled_lem :
      (ss : List Schedule) (now : ℕ) (m : Manager c cron here)
      → Ready ss m
      → Added [] m (wanted ss) (add_enabled c cron here ss now m)
  unfolding add_enabled
  add_enabled_lem [] now m r = record {
    jobs = sym (append-nil (shown (cron.jobs m.jobs)));
    ready = r;
  }
  add_enabled_lem (s ∷ ss) now m r =
      let m' = if s.enabled then (add_schedule c cron here s now m).1 else m in
      let one = add_one_lem s ss now s.enabled m r in
      let all = add_enabled_lem ss now m' one.ready in
      record {
        jobs =
            all.jobs
            ∙ ap (λ js. js ++ wanted ss) one.jobs
            ∙ append_assoc (shown (cron.jobs m.jobs)) _ (wanted ss);
        ready = all.ready;
      }

  -- The jobs after a reload, by what the listing of the schedules gave.
  abbrev pub JobsAfter : Result (List Schedule) → Manager c cron here → Type 0
  JobsAfter (err x) m = cron.jobs m.jobs ≡ []
  JobsAfter (ok ss) m = shown (cron.jobs m.jobs) ≡ wanted ss

  reload_listed_lem :
      (now : ℕ) (r : Result (List Schedule) × Db) (m : Manager c cron here)
      → m.entries ≡ []
      → cron.jobs m.jobs ≡ []
      → Once r.0
      → JobsAfter r.0 (reload_listed c cron here now r m).1
        × IsTracked (reload_listed c cron here now r m).1
  unfolding reload_listed
  reload_listed_lem now (err x, db) m es js once = (js, rw js tt)
  reload_listed_lem now (ok ss, db) m es js once =
      let m' = record m { db = db } in
      let done =
        add_enabled_lem ss now m'
          (record { tracked = rw js tt; once = λ k. rw es (omega (arith, once k)) }) in
      (done.jobs ∙ ap (λ j. shown j ++ wanted ss) js, done.ready.tracked)

  -- `Reload` on consistent tables, when every job is one of the entries: where the schedules can be
  -- listed, the jobs are afterwards exactly those that the enabled schedules ask for, in the order
  -- of the list, those with an unknown time zone or a spec that does not parse left out; where they
  -- cannot, no job is left. Every job is again one of the entries.
  pub reload_lem :
      (now : ℕ) (m : Manager c cron here)
      → IsConsistent m.db
      → IsTracked m
      → JobsAfter (list_schedules c m.db).0 (reload c cron here now m).1
        × IsTracked (reload c cron here now m).1
  unfolding reload
  reload_lem now m consistent tracked =
      reload_listed_lem now (list_schedules c m.db)
        (record m { entries = []; jobs = remove_all c cron here m.entries m.jobs }) refl
        (remove_all_lem m.entries m.jobs tracked) (list_schedules-Once c m.db consistent)
