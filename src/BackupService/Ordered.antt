-- ===== src/BackupService/Ordered.antt =====
-- internal/web/backupservice/service.go: in which order a backup, its upload and the retention
-- come, and what an error leaves out.
use infra_shelf.Common.{
  ℕ, Bytes, Bool, true, List, [], ◌∷◌, ◌++◌, map, take, zero, Option, none, some, Error,
  if◌then◌else◌, ◌≡◌, refl, sym, append-nil, subst, ◌⊎◌, inl, inr,
}
use infra_shelf.Backups.{File, PruneOptions}
use infra_shelf.Backups.Tree.{Tree}
use infra_shelf.Backups.Prune.{Pruned, prune}
use infra_shelf.Runlog.{Buffer}
use infra_shelf.S3backup.{Client, Remote, Request, UploadedFile, enabled, upload_many, delete_many}
use infra_shelf.S3backup.Requests.{
  put_of, delete_of, Sends, outcome, upload_many-Sends, delete_many-Sends,
}
use infra_shelf.BackupService.{
  BackupFile, Run, Engine, World, RunResult, Setting, convert_files, after_upload, after_prune,
  after_mirror, apply_retention, mirror, mirrored, backed_up, backup_with_retention,
}

-- After the retention: what was deleted here was deleted there, up to an error.
abbrev pub IsRetained : Client → Pruned → List Request → Option Error → Tree → Remote → Type 0
IsRetained client p before none tree r =
    (p.1.0 ≡ none) × (tree ≡ p.1.1) × (r.requests ≡ before ++ map (delete_of client) p.0)
IsRetained client p before (some e) tree r =
    (tree ≡ p.1.1) × ((k : ℕ) × (r.requests ≡ before ++ map (delete_of client) (take k p.0)))

-- After the backup of files into a directory: they were all uploaded and then the retention was
-- applied; or the upload failed and the directory is as the backup left it.
abbrev pub IsOrdered :
    Client → Pruned → List Request → List File → Tree → Option Error → Tree → Remote → Type 0
IsOrdered client p before files tree none tree' r =
    IsRetained client p (before ++ map (put_of client) files) none tree' r
IsOrdered client p before files tree (some e) tree' r =
    ((tree' ≡ tree) × ((k : ℕ) × (r.requests ≡ before ++ map (put_of client) (take k files))))
    ⊎ IsRetained client p (before ++ map (put_of client) files) (some e) tree' r

retained-IsOrdered :
    (client : Client) (p : Pruned) (before : List Request) (files : List File) (tree tree' : Tree)
    (e : Option Error) (r : Remote)
    → IsRetained client p (before ++ map (put_of client) files) e tree' r
    → IsOrdered client p before files tree e tree' r
retained-IsOrdered client p before files tree tree' none r h = h
retained-IsOrdered client p before files tree tree' (some e) r h = inr h

-- What holds of a run, by its error, and of the world after it.
abbrev pub IsRun :
    {State : Type 0}
    → Client
    → (Tree → Pruned)
    → Remote
    → Run
    → Option Error
    → (RunResult × Option Error) × World State
    → Type 0
IsRun client prunes r run (some e) ((result, e'), w) =
    (e' ≡ some e) × (w.tree ≡ run.tree) × (w.remote ≡ r)
IsRun client prunes r run none ((result, e'), w) =
    IsOrdered client (prunes run.tree) r.requests (convert_files run.files) run.tree e' w.tree
      w.remote

after_upload-Sends :
    (q : File → Request) (c : Setting) (sent : (List UploadedFile × Option Error) × Remote)
    (lines : Buffer) (before : List Request) (files : List File)
    → Sends q before files (outcome sent)
    → (let x = after_upload c sent lines in Sends q before files (x.0.0, x.1))
after_upload-Sends q c ((us, none), r) lines before files h = h
after_upload-Sends q c ((us, some e), r) lines before files h = h

module _ (c : Setting) (client : Client) where
  after_mirror-IsRetained :
      (deleted : List File) (sent : Option Error × Remote) (tree : Tree) (before : List Request)
      (lines : Buffer)
      → Sends (delete_of client) before deleted sent
      → (let x = after_mirror c deleted sent tree lines in
          IsRetained client (deleted, (none, tree)) before x.0.0 x.1.0 x.1.1)
  after_mirror-IsRetained deleted (none, r) tree before lines h = (refl, refl, h)
  after_mirror-IsRetained deleted (some e, r) tree before lines h = (refl, h)

  abbrev pub prunes : PruneOptions → Tree → Pruned
  prunes retention tree = prune c.sorter c.order c.days_ago c.backups_dir retention tree

  module _ (on : enabled (some client) ≡ true) (here : c.s3 ≡ some client) where
    after_prune-IsRetained :
        (p : Pruned) (r : Remote) (lines : Buffer)
        → (let x = after_prune c p r lines in IsRetained client p r.requests x.0.0 x.1.0 x.1.1)
    after_prune-IsRetained (deleted, (some e, tree)) r lines =
        (refl, (zero, sym (append-nil r.requests)))
    after_prune-IsRetained ([], (none, tree)) r lines = (refl, refl, sym (append-nil r.requests))
    after_prune-IsRetained (f ∷ fs, (none, tree)) r lines =
        after_mirror-IsRetained (f ∷ fs)
          (if enabled c.s3 then delete_many c.s3 (f ∷ fs) r else (none, r)) tree r.requests lines
          (rw (here, on) (delete_many-Sends client (f ∷ fs) r on))

    mirrored-IsOrdered :
        {State : Type 0} (files : List BackupFile) (retention : PruneOptions) (st : State)
        (tree : Tree) (before : List Request) (sent : (Option Error × Buffer) × Remote)
        → Sends (put_of client) before (convert_files files) (sent.0.0, sent.1)
        → (let x = mirrored c files retention st tree sent in
            IsOrdered client
              (prunes retention tree)
              before
              (convert_files files)
              tree
              x.0.1
              x.1.tree
              x.1.remote)
    unfolding apply_retention
    mirrored-IsOrdered files retention st tree before ((some e, lines), r) h = inl (refl, h)
    mirrored-IsOrdered files retention st tree before ((none, lines), r) h =
        let x = after_prune c (prunes retention tree) r lines in
        retained-IsOrdered client (prunes retention tree) before (convert_files files) tree x.1.0
          x.0.0 x.1.1
          (subst (λ qs. IsRetained client (prunes retention tree) qs x.0.0 x.1.0 x.1.1) h
            (after_prune-IsRetained (prunes retention tree) r lines))

    mirror-Sends :
        (files : List BackupFile) (tree : Tree) (r : Remote) (lines : Buffer)
        → (let x = mirror c files tree r lines in
            Sends (put_of client) r.requests (convert_files files) (x.0.0, x.1))
    unfolding mirror convert_files
    mirror-Sends [] tree r lines = rw (here, on) (sym (append-nil r.requests))
    mirror-Sends (f ∷ fs) tree r lines =
        rw (here, on)
          (after_upload-Sends (put_of client) (record c { s3 = some client })
            (upload_many (c.open_file tree) (some client) (convert_files (f ∷ fs)) r) lines
            r.requests (convert_files (f ∷ fs))
            (upload_many-Sends (c.open_file tree) client on (convert_files (f ∷ fs)) r))

    backed_up-IsRun :
        {State : Type 0} (retention : PruneOptions) (r : Remote) (e : Option Error) (run : Run)
        (st : State)
        → IsRun client (prunes retention) r run e (backed_up c retention r e run st)
    backed_up-IsRun retention r (some e) run st = (refl, refl, refl)
    backed_up-IsRun retention r none run st =
        mirrored-IsOrdered run.files retention st run.tree r.requests
          (mirror c run.files run.tree r run.reported)
          (mirror-Sends run.files run.tree r run.reported)

-- What the engine does in a backup of all apps, or of one.
abbrev pub run_of :
    (engine : Engine) → Bytes → Bool → List Bytes → World engine.State → Run × engine.State
run_of engine app all services w =
    if all
    then engine.backup_all services w.state w.tree
    else engine.backup_app app services w.state w.tree

-- `BackupWithRetention` with a client that is enabled. Where the backup fails, nothing is uploaded
-- and nothing deleted. Where an upload fails, nothing is deleted. Otherwise each file was uploaded,
-- in order, before `Prune` ran, and the files that it deleted, and no others, are then deleted in
-- the store too: all of them where no error is returned.
pub backup_with_retention-IsRun :
    (c : Setting) (client : Client) (engine : Engine) (app : Bytes) (all : Bool)
    (services : List Bytes) (retention : PruneOptions) (w : World engine.State)
    → enabled (some client) ≡ true
    → c.s3 ≡ some client
    → IsRun client
        (prunes c client retention)
        w.remote
        (run_of engine app all services w).0
        (run_of engine app all services w).0.error
        (backup_with_retention c engine app all services retention w)
unfolding backup_with_retention
backup_with_retention-IsRun c client engine app all services retention w on here =
    let (run, st) = run_of engine app all services w in
    backed_up-IsRun c client on here retention w.remote run.error run st
