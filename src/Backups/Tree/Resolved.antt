-- ===== src/Backups/Tree/Resolved.antt =====
-- internal/backup/backup.go: which paths `Resolve` gives, and what `Delete` leaves.
use infra_shelf.Common.{
  Bytes, Bool, true, false, ◌&&◌, List, [], ◌∷◌, Option, none, some, Result, ok, err, Error,
  is_some, All, all, ◌==◌, ◌≡◌, refl, ◌>>◌, if◌then◌else◌, arith, Bool-cases, inl, inr, subst,
}
use mathlib.Core.List.{reverse}
use infra_shelf.Common.Text.{is_empty, str_eq, eq_of-str_eq, str_eq_iff, has_prefix, has_suffix}
use infra_shelf.Common.Text.Trim.{All-reverse}
use infra_shelf.Registry.Names.{app_name_pattern, is_name_char}
use infra_shelf.Backups.{File, detect_service}
use infra_shelf.Backups.Tree.{
  Tree, Entry, Root, AppFolder, missing, unreadable, folders, path_of, up_to_slash, or_slash,
  drop_slashes, base_name, stat, resolve, safe_name_pattern, find_in, find_entry, drop_in,
  drop_entry, remove_on, remove, delete, delete_resolved, deleted_file, drop_root, folders_of,
}

-- The text is one name of a path.
abbrev pub IsPart : Bytes → Type 0
IsPart = All (λ c. (c == b'/') ≡ false)

up_to_slash-IsPart : (s : Bytes) → IsPart (up_to_slash s)
unfolding up_to_slash
up_to_slash-IsPart [] = tt
up_to_slash-IsPart (c ∷ s) = elim (Bool-cases (c == b'/')) [
  | inl e ↦ rw e tt
  | inr e ↦ rw e (e, up_to_slash-IsPart s)
]

or_slash-IsPart : (x s : Bytes) → or_slash x ≡ s → is_empty (detect_service s) ≡ false → IsPart s
unfolding or_slash detect_service has_prefix has_suffix
or_slash-IsPart [] s e h =
    subst (λ t. is_empty (detect_service t) ≡ false → IsPart t) e (λ k. ground arith) h
or_slash-IsPart (c ∷ x) s e h =
    subst IsPart e
      (All-reverse (λ c. (c == b'/') ≡ false) (up_to_slash (c ∷ x)) (up_to_slash-IsPart (c ∷ x)))

base_name-IsPart : (s : Bytes) → base_name s ≡ s → is_empty (detect_service s) ≡ false → IsPart s
unfolding base_name
base_name-IsPart [] e h = tt
base_name-IsPart (c ∷ s) e h = or_slash-IsPart (drop_slashes (reverse (c ∷ s))) (c ∷ s) e h

name_chars-IsPart : (s : Bytes) → all is_name_char s ≡ true → IsPart s
name_chars-IsPart [] h = tt
name_chars-IsPart (c ∷ s) h = (ground arith, name_chars-IsPart s (ground arith))

safe_name-IsPart : (s : Bytes) → safe_name_pattern s ≡ true → IsPart s
unfolding app_name_pattern
safe_name-IsPart [] h = tt
safe_name-IsPart (c ∷ s) h = (ground arith, name_chars-IsPart s (ground arith))

-- What `Resolve` gives is a file that is there, of a service, in the directory of an app.
pub record IsResolved (dir app name path : Bytes) (tree : Tree) : Type 0 where
  pub here : path ≡ path_of dir app name
  pub app_part : IsPart app
  pub name_part : IsPart name
  pub service : is_empty (detect_service name) ≡ false
  pub present : is_some (stat app name tree) ≡ true

pub resolve_lem :
    (dir app name path : Bytes) (tree : Tree)
    → resolve dir app name tree ≡ ok path
    → IsResolved dir app name path tree
unfolding resolve
resolve_lem dir app name path tree h = record {
  here = ground arith;
  app_part = safe_name-IsPart app (ground arith);
  name_part =
      base_name-IsPart name (eq_of-str_eq (base_name name) name (ground arith)) (ground arith);
  service = ground arith;
  present = ground arith;
}

-- Whether the two names are of one file.
abbrev pub same_file : Bytes → Bytes → Bytes → Bytes → Bool
same_file app name app' name' = str_eq app app' && str_eq name name'

find_entry-drop_entry :
    (name name' : Bytes) (es : List Entry)
    → find_entry name' (drop_entry name es)
      ≡ (if str_eq name name' then none else find_entry name' es)
unfolding find_entry drop_entry
find_entry-drop_entry name name' [] = ground arith
find_entry-drop_entry name name' (e ∷ es) = ground (
  arith,
  find_entry-drop_entry name name' es,
  str_eq_iff name name',
  str_eq_iff e.name name,
  str_eq_iff e.name name',
)

find_in-drop_in :
    (app name app' name' : Bytes) (fs : List AppFolder)
    → find_in app' name' (drop_in app name fs)
      ≡ (if same_file app name app' name' then none else find_in app' name' fs)
unfolding find_in drop_in
find_in-drop_in app name app' name' [] = ground arith
find_in-drop_in app name app' name' (a ∷ fs) = ground (
  arith,
  find_in-drop_in app name app' name' fs,
  find_entry-drop_entry name name' a.entries,
  str_eq_iff app app',
  str_eq_iff a.name app,
  str_eq_iff a.name app',
)

-- A removal takes the file away, and no other; one that fails takes none.
removed-stat :
    (app name app' name' : Bytes) (r : Root)
    → find_in app' name' (folders_of (drop_root app name r))
      ≡ (if same_file app name app' name' then none else find_in app' name' (folders_of r))
removed-stat app name app' name' missing = unfold find_in in ground arith
removed-stat app name app' name' (unreadable e) = unfold find_in in ground arith
removed-stat app name app' name' (folders fs) = find_in-drop_in app name app' name' fs

-- What a removal leaves, by how it ended.
abbrev pub After {ℓ} : {A : Type ℓ} → Bytes → Bytes → Tree → Result A × Tree → Type 0
After app name tree (err e, tree') = tree'.root ≡ tree.root
After app name tree (ok a, tree') =
    (app' name' : Bytes)
    → stat app' name' tree' ≡ (if same_file app name app' name' then none else stat app' name' tree)

remove_on-After :
    (faults : List (Option Error)) (app name : Bytes) (tree : Tree)
    → After app name tree (remove_on faults app name tree.root)
unfolding remove_on stat
remove_on-After [] app name tree = λ a n. removed-stat app name a n tree.root
remove_on-After (none ∷ fs) app name tree = λ a n. removed-stat app name a n tree.root
remove_on-After (some e ∷ fs) app name tree = refl

pub remove-After : (app name : Bytes) (tree : Tree) → After app name tree (remove app name tree)
unfolding remove
remove-After app name tree = remove_on-After tree.faults app name tree

-- What `Delete` gives back: the file that was there.
abbrev pub IsDeleted : Bytes → Bytes → Bytes → Tree → Result File → Type 0
IsDeleted dir app name tree (err e) = Unit
IsDeleted dir app name tree (ok f) =
    IsResolved dir app name f.path tree
    × (f.app ≡ app)
    × (f.name ≡ name)
    × (f.service ≡ detect_service name)

deleted_file-IsDeleted :
    (dir app name path : Bytes) (tree : Tree) (there : Option Entry)
    → IsResolved dir app name path tree
    → is_some there ≡ true
    → IsDeleted dir app name tree (ok (deleted_file path app name there))
deleted_file-IsDeleted dir app name path tree none h e = absurd (ground arith)
deleted_file-IsDeleted dir app name path tree (some f) h e = (h, refl, refl, refl)

-- The end of `Delete`, after the removal.
ended-IsDeleted :
    (dir app name : Bytes) (tree : Tree) (f : File) (r : Result (Unit {0})) (tree' : Tree)
    → IsDeleted dir app name tree (ok f)
    → After app name tree (r, tree')
    → IsDeleted dir app name tree (do r; ok f) × After app name tree ((do r; ok f), tree')
ended-IsDeleted dir app name tree f (ok u) tree' d h = (d, h)
ended-IsDeleted dir app name tree f (err e) tree' d h = (tt, h)

delete_resolved_lem :
    (dir app name : Bytes) (tree : Tree) (r : Result Bytes)
    → resolve dir app name tree ≡ r
    → IsDeleted dir app name tree (delete_resolved app name r tree).0
      × After app name tree (delete_resolved app name r tree)
delete_resolved_lem dir app name tree (err e) h = (tt, refl)
delete_resolved_lem dir app name tree (ok path) h =
    let here = resolve_lem dir app name path tree h in
    ended-IsDeleted dir app name tree (deleted_file path app name (stat app name tree))
      (remove app name tree).0 (remove app name tree).1
      (deleted_file-IsDeleted dir app name path tree (stat app name tree) here here.present)
      (remove-After app name tree)

-- `Delete` gives the file that was there, of a service and in the directory of the app, and then
-- takes that file away and no other; where it fails, no file is taken away.
pub delete_file_lem :
    (dir app name : Bytes) (tree : Tree)
    → IsDeleted dir app name tree (delete dir app name tree).0
      × After app name tree (delete dir app name tree)
unfolding delete
delete_file_lem dir app name tree =
    delete_resolved_lem dir app name tree (resolve dir app name tree) refl

pub stat-same_root :
    (app name : Bytes) (tree tree' : Tree)
    → tree'.root ≡ tree.root
    → stat app name tree' ≡ stat app name tree
stat-same_root app name tree tree' e = unfold stat in rw e refl
