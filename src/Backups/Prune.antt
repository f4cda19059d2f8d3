-- ===== src/Backups/Prune.antt =====
-- internal/backup/backup.go: `Prune`.
pub mod Groups
pub mod Kept
pub mod Thorough
pub mod Taken
pub mod Settled
use infra_shelf.Common.{
  ℕ, Bytes, Bool, true, false, ◌&&◌, ◌||◌, not, List, [], ◌∷◌, ◌++◌, ◌+◌, Option, none, some,
  Result, ok, err, Error, not_exist, leb, ltb, ◌==◌, if◌then◌else◌,
}
use infra_shelf.Common.Text.{is_empty, str_eq, elem}
use infra_shelf.Common.Dict.{Dict, insert, lookup, keys}
use infra_shelf.Backups.{File, PruneOptions}
use infra_shelf.Backups.Tree.{Tree, Sorter, list, remove}

abbrev pub group_key : File → Bytes
group_key f = f.app ++ b'/' ∷ f.service

abbrev no_services : List Bytes → Bool
no_services [] = true
no_services _ = false

-- The files of the app and of the services that the options name.
abbrev pub is_selected : PruneOptions → File → Bool
is_selected options f =
    not (not options.all && not (is_empty options.app_name) && not (str_eq f.app options.app_name))
    && not (not (no_services options.services) && not (elem f.service options.services))

-- `groups[key]`: nothing for a missing key.
abbrev pub group_at : Option (List File) → List File
group_at none = []
group_at (some fs) = fs

unfoldable pub group_files : PruneOptions → Dict (List File) → List File → Dict (List File)
group_files options groups [] = groups
group_files options groups (f ∷ fs) =
    let skipped = group_files options groups fs in
    let grouped =
      group_files options
        (insert (group_key f) (group_at (lookup (group_key f) groups) ++ f ∷ []) groups) fs in
    if is_selected options f then grouped else skipped

-- Changed before the cutoff, where there is one.
abbrev pub is_old : Option ℕ → File → Bool
is_old none f = false
is_old (some cutoff) f = ltb f.modified cutoff

abbrev is_over : ℕ → ℕ → Bool
is_over keep_count index = ltb 0 keep_count && leb keep_count index

-- The error that `Prune` gives up at: not that the file is gone already.
abbrev pub failure : Result (Unit {0}) → Option Error
failure (err (not_exist _)) = none
failure (err e) = some e
failure (ok _) = none

-- What is deleted, the error, and the directory after.
abbrev pub Pruned : Type 0
Pruned = List File × (Option Error × Tree)

unfoldable pub prune_group : Option ℕ → ℕ → ℕ → List File → List File → Tree → Pruned
prune_group cutoff keep_count index [] deleted tree = (deleted, (none, tree))
prune_group cutoff keep_count index (f ∷ fs) deleted tree =
    let (r, tree') = remove f.app f.name tree in
    let kept = prune_group cutoff keep_count (index + 1) fs deleted tree in
    let removed = prune_group cutoff keep_count (index + 1) fs (deleted ++ f ∷ []) tree' in
    if not (is_old cutoff f) && not (is_over keep_count index)
    then kept
    else elim (failure r) [ some e ↦ (deleted, (some e, tree')) | none ↦ removed ]

unfoldable pub prune_groups :
    Sorter → Option ℕ → ℕ → Dict (List File) → List Bytes → List File → Tree → Pruned
unfolding prune_group
prune_groups sorter cutoff keep_count groups [] deleted tree = (deleted, (none, tree))
prune_groups sorter cutoff keep_count groups (k ∷ ks) deleted tree =
    let (deleted', (e, tree')) =
      prune_group cutoff keep_count 0 (sorter.sort (group_at (lookup k groups))) deleted tree in
    let rest = prune_groups sorter cutoff keep_count groups ks deleted' tree' in
    elim e [ some e ↦ (deleted', (some e, tree')) | none ↦ rest ]

abbrev prune_listed :
    Sorter
    → (List Bytes → List Bytes)
    → Option ℕ
    → PruneOptions
    → Result (List File)
    → Tree
    → Pruned
prune_listed sorter order cutoff options (err e) tree = ([], (some e, tree))
prune_listed sorter order cutoff options (ok files) tree =
    let groups = group_files options [] files in
    prune_groups sorter cutoff options.keep_count groups (order (keys groups)) [] tree

-- `Prune`; `order` is the order that Go ranges over the groups in, and `days_ago` gives the time
-- so many days before now.
unfoldable pub prune :
    Sorter → (List Bytes → List Bytes) → (ℕ → ℕ) → Bytes → PruneOptions → Tree → Pruned
unfolding group_files prune_groups
prune sorter order days_ago dir options tree =
    let cutoff = if ltb 0 options.keep_days then some (days_ago options.keep_days) else none in
    let pruned = prune_listed sorter order cutoff options (list sorter dir tree) tree in
    if options.keep_days == 0 && options.keep_count == 0 then ([], (none, tree)) else pruned
