-- ===== src/Backups/Prune/Taken.antt =====
-- internal/backup/backup.go: what `Prune` reports as deleted, and the tree after it.
use infra_shelf.Common.{
  ℕ, Bytes, Bool, true, false, ◌&&◌, not, List, [], ◌∷◌, ◌++◌, ◌+◌, Option, none, some, Result, ok,
  err, Error, is_some, ◌==◌, ◌≡◌, refl, if◌then◌else◌, arith, All,
}
use infra_shelf.Common.Dict.{Dict, keys, lookup}
use infra_shelf.Backups.{File, PruneOptions}
use infra_shelf.Backups.Tree.{Root, Tree, Sorter, list, stat, remove, remove_on}
use infra_shelf.Backups.Tree.Resolved.{After, remove-After, same_file}
use infra_shelf.Backups.Prune.{
  group_at, group_files, is_old, is_over, failure, Pruned, prune_group, prune_groups, prune_listed,
  prune,
}
use infra_shelf.Backups.Prune.Kept.{is_gone, is_gone-append, cutoff_of}

-- The outcome of a removal is not that the file is gone already, which os.Remove says only of a
-- file that is not there.
abbrev pub is_real : Option Error → Bool
is_real none = true
is_real (some e) = is_some (failure (err e))

abbrev pub IsReal : List (Option Error) → Type 0
IsReal = All (λ o. is_real o ≡ true)

-- What is reported as deleted is not on the tree.
abbrev pub IsTaken : List File → Tree → Type 0
IsTaken deleted tree =
    ((app name : Bytes) → is_gone deleted app name ≡ true → stat app name tree ≡ none)
    × IsReal tree.faults

abbrev IsTakenBy : Pruned → Type 0
IsTakenBy r = r.1.0 ≡ none → IsTaken r.0 r.1.1

remove_on-IsReal :
    (faults : List (Option Error)) (app name : Bytes) (root : Root)
    → IsReal faults
    → IsReal (remove_on faults app name root).1.faults
      × (failure (remove_on faults app name root).0 ≡ none
          → (remove_on faults app name root).0 ≡ ok tt)
unfolding remove_on
remove_on-IsReal [] app name root h = (tt, λ e. refl)
remove_on-IsReal (none ∷ fs) app name root (r, h) = (h, λ e. refl)
remove_on-IsReal (some x ∷ fs) app name root (r, h) = (h, λ e. absurd (ground (arith, e, r)))

After-ok :
    (app name : Bytes) (tree : Tree) (r : Result (Unit {0})) (tree' : Tree)
    → After app name tree (r, tree')
    → r ≡ ok tt
    → (app' name' : Bytes)
    → stat app' name' tree' ≡ (if same_file app name app' name' then none else stat app' name' tree)
After-ok app name tree (ok u) tree' h e = h
After-ok app name tree (err x) tree' h e = absurd (cc e)

remove-IsTaken :
    (f : File) (deleted : List File) (tree : Tree)
    → IsTaken deleted tree
    → failure (remove f.app f.name tree).0 ≡ none
    → IsTaken (deleted ++ f ∷ []) (remove f.app f.name tree).1
remove-IsTaken f deleted tree (gone, real) e =
    let (real', good) : IsReal (remove f.app f.name tree).1.faults
        × (failure (remove f.app f.name tree).0 ≡ none → (remove f.app f.name tree).0 ≡ ok tt) =
      unfold remove in remove_on-IsReal tree.faults f.app f.name tree.root real in
    let after =
      After-ok f.app f.name tree _ (remove f.app f.name tree).1 (remove-After f.app f.name tree)
        (good e) in
    (λ a n h. ground (arith, gone a n, is_gone-append deleted (f ∷ []) a n, after a n, h), real')

module _ (cutoff : Option ℕ) (keep_count : ℕ) where
  prune_group-IsTaken :
      (index : ℕ) (fs deleted : List File) (tree : Tree)
      → IsTaken deleted tree
      → IsTakenBy (prune_group cutoff keep_count index fs deleted tree)
  unfolding prune_group
  prune_group-IsTaken index [] deleted tree h = λ e. h
  prune_group-IsTaken index (f ∷ fs) deleted tree h =
      on_test (not (is_old cutoff f) && not (is_over keep_count index))
        (prune_group-IsTaken (index + 1) fs deleted tree h)
        (λ e.
          prune_group-IsTaken (index + 1) fs (deleted ++ f ∷ []) tree'
            (remove-IsTaken f deleted tree h e))
    where
      tree' : Tree
      tree' = (remove f.app f.name tree).1

      kept : Pruned
      kept = prune_group cutoff keep_count (index + 1) fs deleted tree

      rest : Pruned
      rest = prune_group cutoff keep_count (index + 1) fs (deleted ++ f ∷ []) tree'

      on_failure :
          (o : Option Error)
          → (o ≡ none → IsTakenBy rest)
          → IsTakenBy (elim o [ some e ↦ (deleted, (some e, tree')) | none ↦ rest ])
      on_failure (some e) t = λ q. absurd (cc q)
      on_failure none t = t refl

      on_test :
          (b : Bool)
          → IsTakenBy kept
          → (failure (remove f.app f.name tree).0 ≡ none → IsTakenBy rest)
          → IsTakenBy (
              if b then kept else elim (failure (remove f.app f.name tree).0) [
                | some e ↦ (deleted, (some e, tree'))
                | none ↦ rest
              ])
      on_test true k t = k
      on_test false k t = on_failure (failure (remove f.app f.name tree).0) t

  prune_groups-IsTaken :
      (sorter : Sorter) (groups : Dict (List File)) (ks : List Bytes) (deleted : List File)
      (tree : Tree)
      → IsTaken deleted tree
      → IsTakenBy (prune_groups sorter cutoff keep_count groups ks deleted tree)
  unfolding prune_groups
  prune_groups-IsTaken sorter groups [] deleted tree h = λ e. h
  prune_groups-IsTaken sorter groups (k ∷ ks) deleted tree h =
      on_error one.1.0
        (prune_group-IsTaken 0 (sorter.sort (group_at (lookup k groups))) deleted tree h)
        (prune_groups-IsTaken sorter groups ks one.0 one.1.1)
    where
      one : Pruned
      one = prune_group cutoff keep_count 0 (sorter.sort (group_at (lookup k groups))) deleted tree

      rest : Pruned
      rest = prune_groups sorter cutoff keep_count groups ks one.0 one.1.1

      on_error :
          (e : Option Error)
          → IsTakenBy (one.0, (e, one.1.1))
          → (IsTaken one.0 one.1.1 → IsTakenBy rest)
          → IsTakenBy (elim e [ some e ↦ (one.0, (some e, one.1.1)) | none ↦ rest ])
      on_error (some e) t next = λ q. absurd (cc q)
      on_error none t next = next (t refl)

-- Where `Prune` returns no error, what it reports as deleted is not on the tree.
pub prune-IsTaken :
    (sorter : Sorter) (order : List Bytes → List Bytes) (days_ago : ℕ → ℕ) (dir : Bytes)
    (options : PruneOptions) (tree : Tree)
    → IsReal tree.faults
    → IsTakenBy (prune sorter order days_ago dir options tree)
unfolding prune
prune-IsTaken sorter order days_ago dir options tree real =
    on_options (options.keep_days == 0 && options.keep_count == 0) (list sorter dir tree)
  where
    start : IsTaken [] tree
    start = (λ a n h. absurd (cc h), real)

    on_options :
        (b : Bool) (l : Result (List File))
        → IsTakenBy (
            if b
            then ([], (none, tree))
            else prune_listed sorter order (cutoff_of sorter order days_ago options) options l tree)
    on_options true l = λ e. start
    on_options false (err x) = λ q. absurd (cc q)
    on_options false (ok files) =
        prune_groups-IsTaken (cutoff_of sorter order days_ago options) options.keep_count sorter
          (group_files options [] files) (order (keys (group_files options [] files))) [] tree start
