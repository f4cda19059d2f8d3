-- ===== src/Examples/Samples.antt =====
-- A clock, a cron library, a sort, a directory of backups and tables on which the theorems are
-- tried.
use infra_shelf.Common.{
  ℕ, Bytes, Bool, true, false, ◌||◌, not, List, [], ◌∷◌, ◌++◌, filter, count, Option, none, some,
  Result, ok, err, Error, io_failed, no_env_names, ◌≡◌, refl, ◌∙◌, ap, arith, ◌+◌, leb, ◌==◌,
  if◌then◌else◌, Bool-cases, inl, inr, subst,
}
use infra_shelf.Common.Text.{codes, is_empty, str_eq}
use infra_shelf.Registry.{App, empty_services}
use infra_shelf.Backups.{File, PruneOptions}
use infra_shelf.Backups.Tree.{Tree, folders, Sorter, IsNewestFirst}
use infra_shelf.Config.{Host}
use infra_shelf.S3backup.{Client, Remote}
use infra_shelf.BackupService.{Run, Engine, Setting}
use infra_shelf.Scheduler.Rows.{Clock, Schedule, ScheduleInput, ScheduleRow, Db}
use infra_shelf.Scheduler.Store.Invariant.{IsConsistent}
use infra_shelf.Scheduler.Manager.{Runner, Times}
use infra_shelf.Scheduler.Jobs.{Job, Cron, Manager}
use infra_shelf.Server.{Form}

abbrev pub read_time : Bytes → Option ℕ
read_time (t ∷ []) = some t
read_time _ = none

-- A time is written as one byte.
abbrev pub byte_clock : Clock
byte_clock = record { format = λ t. t ∷ []; parse = read_time; parse-format = λ t. refl }

abbrev pub job_of : ℕ → Bytes → ℕ → Job
job_of e spec id = record { entry = e; spec = spec; schedule = id }

abbrev pub add_job : Bytes → ℕ → List Job × ℕ → Result ℕ × (List Job × ℕ)
add_job spec id s =
    if not (is_empty spec)
    then (ok s.1, (s.0 ++ job_of s.1 spec id ∷ [], s.1 + 1))
    else (err no_env_names, s)

pub add_job_valid :
    (spec : Bytes) (id : ℕ) (s : List Job × ℕ)
    → not (is_empty spec) ≡ true
    → (e : ℕ) × ((add_job spec id s).0 ≡ ok e)
      × ((add_job spec id s).1.0 ≡ s.0 ++ job_of e spec id ∷ [])
add_job_valid spec id s h = (s.1, rw h refl, rw h refl)

pub add_job_invalid :
    (spec : Bytes) (id : ℕ) (s : List Job × ℕ)
    → not (is_empty spec) ≡ false
    → (x : Error) × ((add_job spec id s).0 ≡ err x) × ((add_job spec id s).1.0 ≡ s.0)
add_job_invalid spec id s h = (no_env_names, rw h refl, rw h refl)

-- Every spec but the empty one is valid.
abbrev pub list_cron : Cron
list_cron = record {
  State = List Job × ℕ;
  jobs = λ s. s.0;
  add_func = add_job;
  remove = λ e s. (filter (λ j. not (j.entry == e)) s.0, s.1);
  parse = λ spec. if is_empty spec then err no_env_names else ok tt;
  next = λ spec zone t. t + 1;
  load_location = λ zone. ok zone;
  valid = λ spec. not (is_empty spec);
  add_valid = add_job_valid;
  add_invalid = add_job_invalid;
  jobs-remove = λ e s. refl;
}

-- The runner counts its runs.
abbrev pub counting_runner : Runner
counting_runner = record {
  State = ℕ;
  backup_with_retention =
      λ app all services retention n. ((codes "done", some no_env_names), n + 1);
}

abbrev pub say : Error → Bytes
say e = codes "failed"

abbrev pub nightly_row : ScheduleRow
nightly_row = record {
  id = 1;
  app_name = codes "*";
  services = codes "redis";
  cron_expr = codes "@daily";
  timezone = codes "UTC";
  retention_days = 7;
  retention_count = 0;
  enabled = 1;
  created_at = 1 ∷ [];
  updated_at = 1 ∷ [];
  last_run_at = none;
  next_run_at = none;
  last_status = [];
  last_message = [];
}

abbrev pub nightly_db : Db
nightly_db = record {
  schedules = nightly_row ∷ [];
  runs = [];
  last_schedule = 1;
  last_run = 0;
  faults = [];
}

abbrev pub empty_db : Db
empty_db = record { schedules = []; runs = []; last_schedule = 0; last_run = 0; faults = [] }

pub empty_db-IsConsistent : IsConsistent empty_db
empty_db-IsConsistent = record {
  schedule_ids = omega arith;
  run_ids = omega arith;
  references = tt;
}

pub nightly_db-IsConsistent : IsConsistent nightly_db
nightly_db-IsConsistent = record {
  schedule_ids = (omega arith, omega arith);
  run_ids = omega arith;
  references = tt;
}

abbrev pub nightly : Schedule
nightly = record {
  id = 1;
  app_name = codes "*";
  services = codes "redis" ∷ [];
  cron_expr = codes "@daily";
  timezone = codes "UTC";
  retention_days = 7;
  retention_count = 0;
  enabled = true;
  created_at = 1;
  updated_at = 1;
  last_run_at = none;
  next_run_at = none;
  last_status = [];
  last_message = [];
}

abbrev pub nightly_input : ScheduleInput
nightly_input = record {
  app_name = codes "*";
  services = codes "redis" ∷ [];
  cron_expr = codes "@daily";
  timezone = codes "UTC";
  retention_days = 30;
  retention_count = 0;
  enabled = true;
}

abbrev pub times : Times
times = record { started = 5; finished = 6; ran = 6; marked = 7 }

abbrev pub nightly_manager : Manager byte_clock list_cron (codes "UTC")
nightly_manager = record { entries = []; jobs = ([], 1); db = nightly_db }

abbrev pub nightly_form : Form
nightly_form = record {
  failed = none;
  app_name = [];
  services = codes "redis" ∷ [];
  cron_expr = codes "@daily";
  timezone = codes "UTC";
  retention_days = [];
  retention_count = [];
}

abbrev pub any_app : Bytes → Result (Option App)
any_app name = ok (
    some (record {
      name = name;
      created_at = [];
      entry = record {
        created_at = [];
        environment = [];
        signoz_service_name = [];
        services = empty_services;
      };
    }))

-- A sort by insertion.
abbrev pub insert_file : File → List File → List File
insert_file f [] = f ∷ []
insert_file f (g ∷ gs) = if leb g.modified f.modified then f ∷ g ∷ gs else g ∷ insert_file f gs

abbrev pub sort_files : List File → List File
sort_files [] = []
sort_files (f ∷ fs) = insert_file f (sort_files fs)

count-insert_file :
    (p : File → Bool) (f : File) (fs : List File)
    → count p (insert_file f fs) ≡ (if p f then 1 else 0) + count p fs
count-insert_file p f [] = omega arith
count-insert_file p f (g ∷ gs) = ground (arith, count-insert_file p f gs)

pub count-sort_files : (p : File → Bool) (fs : List File) → count p (sort_files fs) ≡ count p fs
count-sort_files p [] = refl
count-sort_files p (f ∷ fs) =
    count-insert_file p f (sort_files fs)
    ∙ ap (λ n. (if p f then 1 else 0) + n) (count-sort_files p fs)

insert_file_later :
    (f g : File) (gs : List File)
    → leb g.modified f.modified ≡ false
    → insert_file f (g ∷ gs) ≡ g ∷ insert_file f gs
insert_file_later f g gs h = rw h refl

insert_file-IsNewestFirst :
    (f : File) (fs : List File) → IsNewestFirst fs → IsNewestFirst (insert_file f fs)
insert_file-IsNewestFirst f [] s = (tt, tt)
insert_file-IsNewestFirst f (g ∷ []) s = elim (Bool-cases (leb g.modified f.modified)) [
  | inl e ↦ rw e (e, (tt, tt))
  | inr e ↦ rw e (ground arith, (tt, tt))
]
insert_file-IsNewestFirst f (g ∷ h ∷ hs) (s, ss) = elim (Bool-cases (leb g.modified f.modified)) [
  | inl e ↦ rw e (e, (s, ss))
  | inr e ↦ elim (Bool-cases (leb h.modified f.modified)) [
    | inl k ↦ rw (e, k) (ground arith, (k, ss))
    | inr k ↦
        rw (e, k)
          (
            s,
            subst IsNewestFirst (insert_file_later f h hs k)
                (insert_file-IsNewestFirst f (h ∷ hs) ss),
          )
  ]
]

pub sort_files-IsNewestFirst : (fs : List File) → IsNewestFirst (sort_files fs)
sort_files-IsNewestFirst [] = tt
sort_files-IsNewestFirst (f ∷ fs) =
    insert_file-IsNewestFirst f (sort_files fs) (sort_files-IsNewestFirst fs)

abbrev pub insertion_sorter : Sorter
insertion_sorter = record {
  sort = sort_files;
  sort-IsNewestFirst = sort_files-IsNewestFirst;
  count-sort = count-sort_files;
}

-- Two backups of an app.
abbrev pub shop_tree : Tree
shop_tree = record {
  root = folders (
      record {
        name = codes "shop";
        folder = true;
        entries =
            record { name = codes "redis_1.json"; folder = false; info = some (10, 5) }
            ∷ record { name = codes "redis_2.json"; folder = false; info = some (12, 9) }
            ∷ [];
        listable = true;
      }
      ∷ []);
  faults = [];
}

abbrev pub keep_one : PruneOptions
keep_one = record { app_name = []; all = true; services = []; keep_days = 0; keep_count = 1 }

abbrev pub shop_client : Client
shop_client = record {
  cfg = record {
    bucket = codes "vault";
    region = codes "eu";
    prefix = codes "shelf";
    endpoint = [];
    force_path_style = false;
    access_key_id = [];
    secret_access_key = [];
    session_token = [];
  };
}

abbrev pub shop_setting : Setting
shop_setting = record {
  sorter = insertion_sorter;
  order = λ ks. ks;
  days_ago = λ days. 0;
  backups_dir = codes "/srv";
  s3 = some shop_client;
  open_file = λ tree path. none;
  message = say;
}

abbrev pub shop_run : Tree → Run
shop_run tree = record {
  files =
      record { app = codes "shop"; service = codes "redis"; path = codes "/srv/shop/redis_2.json" }
      ∷ [];
  error = none;
  reported = [];
  tree = tree;
}

abbrev pub shop_engine : Engine
shop_engine = record {
  State = ℕ;
  backup_all = λ services n tree. (shop_run tree, n + 1);
  backup_app = λ app services n tree. (shop_run tree, n + 1);
}

abbrev pub no_requests : Remote
no_requests = record { requests = []; faults = [] }

abbrev pub marked_host : Host
marked_host = record {
  environment = [];
  working_directory = ok (codes "/srv/shelf/cmd");
  read_file = λ path. err (io_failed path);
  exists = λ path.
      str_eq path (codes "/srv/shelf/docker-compose.yml")
      || str_eq path (codes "/srv/shelf/go.mod");
}
