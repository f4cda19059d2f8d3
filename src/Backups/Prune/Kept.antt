-- ===== src/Backups/Prune/Kept.antt =====
-- internal/backup/backup.go: what `Prune` deletes, and what it leaves.
use infra_shelf.Common.{
  ℕ, Bytes, Bool, true, false, ◌&&◌, ◌||◌, List, [], ◌∷◌, ◌++◌, Option, none, some, Result, ok, err,
  ltb, ◌≡◌, refl, if◌then◌else◌, arith, All, count,
}
use infra_shelf.Backups.{File, PruneOptions}
use infra_shelf.Backups.Tree.{Tree, Sorter, stat}
use infra_shelf.Backups.Tree.Resolved.{same_file}
use infra_shelf.Backups.Prune.{is_selected, is_old, Pruned}
use infra_shelf.Backups.Prune.Groups.{is_listed, is_newer}

-- The file may be deleted: it is listed and the options select it, and it is older than the cutoff
-- or there are more files of its app and service than are kept that are not older, itself one.
abbrev pub is_due : PruneOptions → Option ℕ → List File → File → Bool
is_due options cutoff files f =
    is_listed files f
    && is_selected options f
    && (is_old cutoff f
        || (ltb 0 options.keep_count && ltb options.keep_count (count (is_newer options f) files)))

-- Whether the file of an app is among the deleted ones.
abbrev pub is_gone : List File → Bytes → Bytes → Bool
is_gone [] app name = false
is_gone (f ∷ fs) app name = same_file f.app f.name app name || is_gone fs app name

pub is_gone-append :
    (xs ys : List File) (app name : Bytes)
    → is_gone (xs ++ ys) app name ≡ (is_gone xs app name || is_gone ys app name)
is_gone-append [] ys app name = refl
is_gone-append (f ∷ xs) ys app name = ground (arith, is_gone-append xs ys app name)

module _ (options : PruneOptions) (cutoff : Option ℕ) (files : List File) (before : Tree) where
  -- What is deleted may be, and each file that is not deleted is still there.
  abbrev pub IsRightly : Pruned → Type 0
  IsRightly (deleted, (e, after)) =
      All (λ f. is_due options cutoff files f ≡ true) deleted
      × ((app name : Bytes)
          → is_gone deleted app name ≡ false
          → stat app name after ≡ stat app name before)

module _ (sorter : Sorter) (order : List Bytes → List Bytes) (days_ago : ℕ → ℕ) where
  -- The time that the options' days are before now.
  abbrev pub cutoff_of : PruneOptions → Option ℕ
  cutoff_of options = if ltb 0 options.keep_days then some (days_ago options.keep_days) else none

  -- What `Prune` does with a listing; without one, it deletes nothing.
  abbrev pub IsPruned : PruneOptions → Tree → Result (List File) → Pruned → Type 0
  IsPruned options tree (err e) r = (r.0 ≡ []) × (r.1.1 ≡ tree)
  IsPruned options tree (ok files) r = IsRightly options (cutoff_of options) files tree r
