-- ===== src/Backups/Tree.antt =====
-- internal/backup/backup.go: the directory of the backups as os.ReadDir shows it, and `List`,
-- `TakeSnapshot`, `ListForApp`, `Resolve` and `Delete`.
pub mod Resolved
use infra_shelf.Common.{
  ℕ, Bytes, Bool, true, false, ◌&&◌, ◌||◌, not, List, [], ◌∷◌, ◌++◌, Option, none, some, Result, ok,
  err, Error, invalid_app_name, not_exist, path_traversal, cannot_detect_service, filter, count,
  leb, ◌==◌, ◌≡◌, ◌>>=◌, ◌>>◌, if◌then◌else◌,
}
use mathlib.Core.List.{reverse}
use infra_shelf.Common.Text.{codes, is_empty, str_eq, has_prefix}
use infra_shelf.Common.Dict.{Dict, insert}
use infra_shelf.Registry.Names.{app_name_pattern}
use infra_shelf.Backups.{File, detect_service}

-- `safeNamePattern` is the pattern of app names.
abbrev pub safe_name_pattern : Bytes → Bool
safe_name_pattern = app_name_pattern

-- An entry of the directory of an app; its size and time, where they can be read.
pub record Entry : Type 0 where
  pub name : Bytes
  pub folder : Bool
  pub info : Option (ℕ × ℕ)

-- An entry of the directory of the backups; what is in it, and whether os.ReadDir can list it (a
-- file in a directory that cannot be listed can still be found and removed).
pub record AppFolder : Type 0 where
  pub name : Bytes
  pub folder : Bool
  pub entries : List Entry
  pub listable : Bool

pub data Root : Type 0 where
  missing : Root
  unreadable : Error → Root
  folders : List AppFolder → Root

-- The directory, and how the coming removals fare: each none, or the error that it fails with.
pub record Tree : Type 0 where
  pub root : Root
  pub faults : List (Option Error)

-- The newest first.
abbrev pub IsNewestFirst : List File → Type 0
IsNewestFirst [] = Unit
IsNewestFirst (f ∷ fs) = IsBelow f fs × IsNewestFirst fs
  where
    IsBelow : File → List File → Type 0
    IsBelow f [] = Unit
    IsBelow f (g ∷ gs) = leb g.modified f.modified ≡ true

-- sort.Slice by the time, which leaves the order of files of one time open: the same files.
pub record Sorter : Type 0 where
  pub sort : List File → List File
  pub sort-IsNewestFirst : (fs : List File) → IsNewestFirst (sort fs)
  pub count-sort : (p : File → Bool) (fs : List File) → count p (sort fs) ≡ count p fs

-- `filepath.Join` of names under a clean directory.
abbrev pub path_of : Bytes → Bytes → Bytes → Bytes
path_of dir app name = dir ++ b'/' ∷ (app ++ b'/' ∷ name)

unfoldable pub file_of : Bytes → Bytes → Bytes → Bytes → Option (ℕ × ℕ) → List File
file_of dir app service name none = []
file_of dir app service name (some (size, modified)) =
    record {
      app = app;
      service = service;
      name = name;
      path = path_of dir app name;
      size = size;
      modified = modified;
    }
    ∷ []

unfoldable pub list_entries : Bytes → Bytes → List Entry → List File
unfolding file_of
list_entries dir app [] = []
list_entries dir app (e ∷ es) =
    let service = detect_service e.name in
    (if e.folder || is_empty service then [] else file_of dir app service e.name e.info)
    ++ list_entries dir app es

unfoldable pub list_folder : Bytes → Bytes → Bool → List Entry → List File
list_folder dir app listable es = if listable then list_entries dir app es else []

unfoldable pub list_folders : Bytes → List AppFolder → List File
unfolding list_folder
list_folders dir [] = []
list_folders dir (a ∷ rest) =
    (if not a.folder || not (safe_name_pattern a.name)
      then []
      else list_folder dir a.name a.listable a.entries)
    ++ list_folders dir rest

-- `List`: no directory is no file.
unfoldable pub list_root : Sorter → Bytes → Root → Result (List File)
unfolding list_folders
list_root sorter dir missing = ok []
list_root sorter dir (unreadable e) = err e
list_root sorter dir (folders fs) = ok (sorter.sort (list_folders dir fs))

unfoldable pub list : Sorter → Bytes → Tree → Result (List File)
unfolding list_root
list sorter dir tree = list_root sorter dir tree.root

snapshot_of : Dict File → List File → Dict File
snapshot_of snapshot [] = snapshot
snapshot_of snapshot (f ∷ fs) = snapshot_of (insert f.path f snapshot) fs

pub take_snapshot : Sorter → Bytes → Tree → Result (Dict File)
unfolding snapshot_of
take_snapshot sorter dir tree = do files ← list sorter dir tree; ok (snapshot_of [] files)

pub list_for_app : Sorter → Bytes → Bytes → Tree → Result (List File)
list_for_app sorter dir app tree = do
  files ← list sorter dir tree
  ok (filter (λ f. str_eq f.app app) files)

-- `filepath.Base`: without slashes at the end, what follows the last slash.
pub drop_slashes : Bytes → Bytes
drop_slashes [] = []
drop_slashes (c ∷ s) = if c == b'/' then drop_slashes s else c ∷ s

-- The text up to the first slash.
pub up_to_slash : Bytes → Bytes
up_to_slash [] = []
up_to_slash (c ∷ s) = if c == b'/' then [] else c ∷ up_to_slash s

pub or_slash : Bytes → Bytes
or_slash [] = codes "/"
or_slash (c ∷ s) = reverse (up_to_slash (c ∷ s))

pub base_name : Bytes → Bytes
unfolding drop_slashes up_to_slash or_slash
base_name [] = codes "."
base_name (c ∷ s) = or_slash (drop_slashes (reverse (c ∷ s)))

pub find_entry : Bytes → List Entry → Option Entry
find_entry name [] = none
find_entry name (e ∷ es) = if str_eq e.name name then some e else find_entry name es

find_in : Bytes → Bytes → List AppFolder → Option Entry
unfolding find_entry
find_in app name [] = none
find_in app name (a ∷ rest) =
    let later = find_in app name rest in
    if str_eq a.name app then find_entry name a.entries else later

abbrev folders_of : Root → List AppFolder
folders_of (folders fs) = fs
folders_of _ = []

-- `os.Stat` of a file of an app.
pub stat : Bytes → Bytes → Tree → Option Entry
unfolding find_in
stat app name tree = find_in app name (folders_of tree.root)

abbrev found : Bytes → Option Entry → Result Bytes
found path none = err (not_exist (codes "stat"))
found path (some e) = ok path

-- `filepath.Rel` of the path, from the directory.
abbrev relative : Bytes → Bytes → Bytes
relative app name = app ++ b'/' ∷ name

-- `Resolve`; the directory is absolute and clean.
pub resolve : Bytes → Bytes → Bytes → Tree → Result Bytes
unfolding base_name
resolve dir app name tree =
    if not (safe_name_pattern app)
    then err (invalid_app_name app)
    else if not (str_eq (base_name name) name) || is_empty (detect_service name)
    then err (cannot_detect_service name)
    else if has_prefix (relative app name) (codes "..") || str_eq (relative app name) (codes ".")
    then err (path_traversal name)
    else found (path_of dir app name) (stat app name tree)

unfoldable pub drop_entry : Bytes → List Entry → List Entry
drop_entry name [] = []
drop_entry name (e ∷ es) =
    let rest = drop_entry name es in if str_eq e.name name then rest else e ∷ rest

unfoldable pub drop_in : Bytes → Bytes → List AppFolder → List AppFolder
unfolding drop_entry
drop_in app name [] = []
drop_in app name (a ∷ rest) =
    (if str_eq a.name app then record a { entries = drop_entry name a.entries } else a)
    ∷ drop_in app name rest

abbrev drop_root : Bytes → Bytes → Root → Root
drop_root app name (folders fs) = folders (drop_in app name fs)
drop_root app name r = r

-- `os.Remove` of a file of an app: an error leaves it.
unfoldable pub remove_on : List (Option Error) → Bytes → Bytes → Root → Result (Unit {0}) × Tree
unfolding drop_in
remove_on [] app name root = (ok tt, record { root = drop_root app name root; faults = [] })
remove_on (none ∷ fs) app name root =
    (ok tt, record { root = drop_root app name root; faults = fs })
remove_on (some e ∷ fs) app name root = (err e, record { root = root; faults = fs })

unfoldable pub remove : Bytes → Bytes → Tree → Result (Unit {0}) × Tree
unfolding remove_on
remove app name tree = remove_on tree.faults app name tree.root

abbrev info_or_zero : Option (ℕ × ℕ) → ℕ × ℕ
info_or_zero none = (0, 0)
info_or_zero (some i) = i

abbrev deleted_file : Bytes → Bytes → Bytes → Option Entry → File
deleted_file path app name none = record {
  app = app;
  service = [];
  name = name;
  path = path;
  size = 0;
  modified = 0;
}
deleted_file path app name (some e) =
    let (size, modified) = info_or_zero e.info in
    record {
      app = app;
      service = detect_service name;
      name = name;
      path = path;
      size = size;
      modified = modified;
    }

abbrev delete_resolved : Bytes → Bytes → Result Bytes → Tree → Result File × Tree
delete_resolved app name (err e) tree = (err e, tree)
delete_resolved app name (ok path) tree =
    let (r, tree') = remove app name tree in
    ((do r; ok (deleted_file path app name (stat app name tree))), tree')

pub delete : Bytes → Bytes → Bytes → Tree → Result File × Tree
delete dir app name tree = delete_resolved app name (resolve dir app name tree) tree
