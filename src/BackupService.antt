-- ===== src/BackupService.antt =====
-- internal/web/backupservice/service.go. The engine is an interface; the lines of the server's own
-- log are not kept.
pub mod Ordered
use mathlib.Core.List.{reverse}
use infra_shelf.Common.{
  ℕ, Bytes, Bool, true, false, ◌&&◌, ◌||◌, not, List, [], ◌∷◌, ◌++◌, map, Option, none, some,
  Result, ok, err, Error, s3_not_configured, zero, suc, ◌+◌, ◌/◌, ◌%◌, ltb, ◌==◌, length,
  if◌then◌else◌,
}
use infra_shelf.Common.Text.{codes, is_empty, str_eq}
use infra_shelf.Backups.{File, PruneOptions}
use infra_shelf.Backups.Tree.{Tree, Sorter, list, delete}
use infra_shelf.Backups.Prune.{Pruned, prune}
use infra_shelf.Runlog.{Buffer, append_line, text}
use infra_shelf.S3backup.{
  Client, Remote, UploadedFile, enabled, destination, upload_many, delete_many,
}
use infra_shelf.Scheduler.Manager.{Runner}

-- `shelfcore.BackupFile`, with its path as a text.
pub record BackupFile : Type 0 where
  pub app : Bytes
  pub service : Bytes
  pub path : Bytes

-- What a run of the engine gives: the files, the error, what it reported, and the directory after.
pub record Run : Type 0 where
  pub files : List BackupFile
  pub error : Option Error
  pub reported : Buffer
  pub tree : Tree

-- `engineFactory`, applied to an empty buffer: what its engine does.
pub record Engine : Type 1 where
  pub State : Type 0
  pub backup_all : List Bytes → State → Tree → Run × State
  pub backup_app : Bytes → List Bytes → State → Tree → Run × State

pub record World (State : Type 0) : Type 0 where
  pub state : State
  pub tree : Tree
  pub remote : Remote

pub record RunResult : Type 0 where
  pub files : List BackupFile
  pub log : Bytes

-- The digits of a number below 10 ^ (fuel + 1).
unfoldable pub decimal_digits : ℕ → ℕ → Bytes
decimal_digits zero n = (b'0' + n % 10) ∷ []
decimal_digits (suc fuel) n =
    let rest = decimal_digits fuel (n / 10) in
    (if ltb n 10 then [] else rest) ++ (b'0' + n % 10) ∷ []

-- The verb `%d`; a number has no more digits than it counts.
unfoldable pub decimal : ℕ → Bytes
unfolding decimal_digits
decimal n = decimal_digits n n

-- From the end: what follows the last slash or backslash.
base_loop : Bytes → Bytes → Bytes
base_loop name [] = name
base_loop name (c ∷ s) = if c == b'/' || c == b'\\' then name else base_loop (c ∷ name) s

pub path_base : Bytes → Bytes
unfolding base_loop
path_base p = base_loop [] (reverse p)

-- Each file without its size and time.
pub convert_files : List BackupFile → List File
convert_files [] = []
convert_files (f ∷ fs) =
    record {
      app = f.app;
      service = f.service;
      name = path_base f.path;
      path = f.path;
      size = 0;
      modified = 0;
    }
    ∷ convert_files fs

pub no_retention : PruneOptions
no_retention = record { app_name = []; all = false; services = []; keep_days = 0; keep_count = 0 }

-- The directory, the client, and what the program asks of the operating system.
pub record Setting : Type 0 where
  pub sorter : Sorter
  pub order : List Bytes → List Bytes
  pub days_ago : ℕ → ℕ
  pub backups_dir : Bytes
  pub s3 : Option Client
  pub open_file : Tree → Bytes → Option Error
  pub message : Error → Bytes

module _ (c : Setting) where
  -- What is logged of the files that were pruned.
  abbrev pruned_line : List File → Bytes
  pruned_line deleted = codes "Pruned " ++ (decimal (length deleted) ++ codes " backup file(s)")

  abbrev after_mirror :
      List File → Option Error × Remote → Tree → Buffer → (Option Error × Buffer) × (Tree × Remote)
  after_mirror deleted (some e, r) tree lines =
      ((some e, append_line (c.message e) lines), (tree, r))
  after_mirror deleted (none, r) tree lines =
      ((none, append_line (pruned_line deleted) lines), (tree, r))

  abbrev after_prune : Pruned → Remote → Buffer → (Option Error × Buffer) × (Tree × Remote)
  after_prune (deleted, (some e, tree)) r lines =
      ((some e, append_line (c.message e) lines), (tree, r))
  after_prune ([], (none, tree)) r lines = ((none, lines), (tree, r))
  after_prune (f ∷ fs, (none, tree)) r lines =
      after_mirror (f ∷ fs) (if enabled c.s3 then delete_many c.s3 (f ∷ fs) r else (none, r)) tree
        lines

  pub apply_retention :
      PruneOptions → Tree → Remote → Buffer → (Option Error × Buffer) × (Tree × Remote)
  apply_retention retention tree r lines =
      after_prune (prune c.sorter c.order c.days_ago c.backups_dir retention tree) r lines

  -- The upload, where there is a client and a file: the error, the log and the store after.
  abbrev uploaded_line : List UploadedFile → Bytes
  uploaded_line us =
      codes "Uploaded "
      ++ (decimal (length us) ++ (codes " backup file(s) to " ++ destination c.s3))

  abbrev after_upload :
      (List UploadedFile × Option Error) × Remote → Buffer → (Option Error × Buffer) × Remote
  after_upload ((us, some e), r) lines = ((some e, append_line (c.message e) lines), r)
  after_upload ((us, none), r) lines = ((none, append_line (uploaded_line us) lines), r)

  abbrev some_files : List BackupFile → Bool
  some_files [] = false
  some_files _ = true

  pub mirror : List BackupFile → Tree → Remote → Buffer → (Option Error × Buffer) × Remote
  mirror files tree r lines =
      let sent = after_upload (upload_many (c.open_file tree) c.s3 (convert_files files) r) lines in
      if enabled c.s3 && some_files files then sent else ((none, lines), r)

  abbrev retained :
      {State : Type 0}
      → List BackupFile
      → State
      → (Option Error × Buffer) × (Tree × Remote)
      → (RunResult × Option Error) × World State
  retained files st ((e, lines), (tree, r)) = (
    (record { files = files; log = text lines }, e),
    record { state = st; tree = tree; remote = r },
  )

  abbrev mirrored :
      {State : Type 0}
      → List BackupFile
      → PruneOptions
      → State
      → Tree
      → (Option Error × Buffer) × Remote
      → (RunResult × Option Error) × World State
  mirrored files retention st tree ((some e, lines), r) =
      retained files st ((some e, lines), (tree, r))
  mirrored files retention st tree ((none, lines), r) =
      retained files st (apply_retention retention tree r lines)

  abbrev backed_up :
      {State : Type 0}
      → PruneOptions
      → Remote
      → Option Error
      → Run
      → State
      → (RunResult × Option Error) × World State
  backed_up retention r (some e) run st =
      retained run.files st ((some e, append_line (c.message e) run.reported), (run.tree, r))
  backed_up retention r none run st =
      mirrored run.files retention st run.tree (mirror run.files run.tree r run.reported)

  pub backup_with_retention :
      (engine : Engine)
      → Bytes
      → Bool
      → List Bytes
      → PruneOptions
      → World engine.State
      → (RunResult × Option Error) × World engine.State
  unfolding mirror apply_retention
  backup_with_retention engine app all services retention w =
      let (run, st) =
        if all
        then engine.backup_all services w.state w.tree
        else engine.backup_app app services w.state w.tree in
      backed_up retention w.remote run.error run st

  pub backup :
      (engine : Engine)
      → Bytes
      → Bool
      → List Bytes
      → World engine.State
      → (RunResult × Option Error) × World engine.State
  backup engine app all services w = backup_with_retention engine app all services no_retention w

  abbrev upload_listed :
      Result (List File) → Tree → Remote → (List UploadedFile × Option Error) × Remote
  upload_listed (err e) tree r = (([], some e), r)
  upload_listed (ok files) tree r = upload_many (c.open_file tree) c.s3 files r

  pub upload_all : Tree → Remote → (List UploadedFile × Option Error) × Remote
  upload_all tree r =
      let uploaded = upload_listed (list c.sorter c.backups_dir tree) tree r in
      if enabled c.s3 then uploaded else (([], some s3_not_configured), r)

  abbrev delete_mirror :
      Result File × Tree → Remote → (Option File × Option Error) × (Tree × Remote)
  delete_mirror (err e, tree) r = ((none, some e), (tree, r))
  delete_mirror (ok file, tree) r =
      let (e, r') = if enabled c.s3 then delete_many c.s3 (file ∷ []) r else (none, r) in
      ((some file, e), (tree, r'))

  -- `DeleteFile`: no file for the empty one.
  pub delete_file : Bytes → Bytes → Tree → Remote → (Option File × Option Error) × (Tree × Remote)
  delete_file app name tree r = delete_mirror (delete c.backups_dir app name tree) r

  pub s3_enabled : Bool
  s3_enabled = enabled c.s3

  pub s3_destination : Bytes
  s3_destination = destination c.s3

  -- What the scheduler runs.
  pub backup_runner : Engine → Runner
  unfolding backup_with_retention
  backup_runner engine = record {
    State = World engine.State;
    backup_with_retention = λ app all services retention w.
        let ((r, e), w') = backup_with_retention engine app all services retention w in
        ((r.log, e), w');
  }
