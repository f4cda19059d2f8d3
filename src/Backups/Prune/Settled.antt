-- ===== src/Backups/Prune/Settled.antt =====
-- internal/backup/backup.go: what is left where `Prune` returns no error.
use infra_shelf.Common.{
  ℕ, Bytes, Bool, true, false, ◌&&◌, List, [], ◌∷◌, ◌≤◌, Option, none, Result, ok, err, ltb, ◌==◌,
  ◌≡◌, refl, if◌then◌else◌, arith, count, Bool-cases, Option-cases, is_some, inl, inr, subst, sym,
  count-le, ap, ◌∙◌,
}
use infra_shelf.Common.Text.{elem}
use infra_shelf.Common.Dict.{Dict, keys, lookup}
use infra_shelf.Backups.{File, PruneOptions}
use infra_shelf.Backups.Tree.{Tree, Sorter, list, stat}
use infra_shelf.Backups.Prune.{is_old, group_at, group_files, prune_groups, prune_listed, prune}
use infra_shelf.Backups.Prune.Groups.{in_group, count-group_sorted}
use infra_shelf.Backups.Prune.Kept.{is_gone, cutoff_of}
use infra_shelf.Backups.Prune.Taken.{IsReal, prune-IsTaken}
use infra_shelf.Backups.Prune.Thorough.{left, old_left, prune_groups-IsAllDone}

elem-keys : {V : Type 0} (k : Bytes) (m : Dict V) → elem k (keys m) ≡ is_some (lookup k m)
unfolding elem keys lookup
elem-keys k [] = refl
elem-keys k ((j, v) ∷ m) = ground (arith, elem-keys k m)

count-never : (p : File → Bool) (fs : List File) → ((f : File) → p f ≡ false) → count p fs ≡ 0
count-never p [] h = refl
count-never p (f ∷ fs) h = ground (arith, h f, count-never p fs h)

-- The file is on the tree.
abbrev pub is_there : Tree → File → Bool
is_there tree f = is_some (stat f.app f.name tree)

module _ (options : PruneOptions) (cutoff : Option ℕ) (files : List File) where
  -- Of the listed files of each app and service that are selected, all that are old are among the
  -- deleted, and no more are not than are kept, where there is such a number.
  abbrev pub IsCounted : List File → Type 0
  IsCounted deleted =
      (k : Bytes)
      → (count (in_group options k (old_left cutoff options.keep_count deleted)) files ≡ 0)
        × (ltb 0 options.keep_count ≡ true
            → count (in_group options k (left deleted)) files ≤ options.keep_count)

  -- Of the listed files of each app and service that are selected, none is on the tree that is old,
  -- and no more are on it than are kept, where there is such a number.
  abbrev pub IsSettled : Tree → Type 0
  IsSettled tree =
      (k : Bytes)
      → (count (in_group options k (λ f. is_old cutoff f && is_there tree f)) files ≡ 0)
        × (ltb 0 options.keep_count ≡ true
            → count (in_group options k (is_there tree)) files ≤ options.keep_count)

  IsSettled-of :
      (deleted : List File) (tree : Tree)
      → ((app name : Bytes) → is_gone deleted app name ≡ true → stat app name tree ≡ none)
      → IsCounted deleted
      → IsSettled tree
  IsSettled-of deleted tree gone counted k =
      let stays : (f : File) → is_there tree f ≡ true → left deleted f ≡ true =
        λ f h. ground (arith, gone f.app f.name, h) in
      (
        omega (
          arith,
          (counted k).0,
          count-le (in_group options k (λ f. is_old cutoff f && is_there tree f))
              (in_group options k (old_left cutoff options.keep_count deleted))
              (λ f h. ground (arith, stays f, h)) files,
        ),
        λ p. omega (
          arith,
          (counted k).1 p,
          count-le (in_group options k (is_there tree)) (in_group options k (left deleted))
              (λ f h. ground (arith, stays f, h)) files,
        ),
      )

  absent_group :
      (sorter : Sorter) (k : Bytes) (p : File → Bool)
      → is_some (lookup k (group_files options [] files)) ≡ false
      → count (in_group options k p) files ≡ 0
  absent_group sorter k p h = elim (Option-cases (lookup k (group_files options [] files))) [
    | inr (g, e) ↦ absurd (ground (arith, h, e))
    | inl e ↦
        sym (count-group_sorted sorter options files k p)
        ∙ ap (λ o. count p (sorter.sort (group_at o))) e
        ∙ sorter.count-sort p []
  ]

  groups-IsCounted :
      (sorter : Sorter) (order : List Bytes → List Bytes) (tree : Tree)
      → ((k : Bytes) (ks : List Bytes) → elem k (order ks) ≡ elem k ks)
      → (let r =
            prune_groups sorter cutoff options.keep_count
              (group_files options [] files)
              (order (keys (group_files options [] files)))
              []
              tree in
          r.1.0 ≡ none → IsCounted r.0)
  groups-IsCounted sorter order tree same e k =
      let groups = group_files options [] files in
      let d =
        (prune_groups sorter cutoff options.keep_count groups (order (keys groups)) [] tree).0 in
      elim (Bool-cases (is_some (lookup k groups))) [
        | inr h ↦ (
          absent_group sorter k (old_left cutoff options.keep_count d) h,
          λ p. omega (arith, absent_group sorter k (left d) h),
        )
        | inl h ↦
            let (o, m) =
              (prune_groups-IsAllDone cutoff options.keep_count sorter options files
                  (order (keys groups)) [] tree).1
                e k (same k (keys groups) ∙ elem-keys k groups ∙ h) in
            (
              sym (count-group_sorted sorter options files k (old_left cutoff options.keep_count d))
                  ∙ o,
              λ p. omega (arith, m p, count-group_sorted sorter options files k (left d)),
            )
      ]

ok_inj : (x y : List File) → ok x ≡ ok y → x ≡ y
ok_inj x y h = ground arith

listed-IsCounted :
    (sorter : Sorter) (order : List Bytes → List Bytes) (days_ago : ℕ → ℕ) (options : PruneOptions)
    (tree : Tree) (files : List File)
    → ((k : Bytes) (ks : List Bytes) → elem k (order ks) ≡ elem k ks)
    → (b : Bool) (l : Result (List File)) → options.keep_days == 0 && options.keep_count == 0 ≡ b
    → l ≡ ok files
    → (let r =
          if b
          then ([], (none, tree))
          else prune_listed sorter order (cutoff_of sorter order days_ago options) options l tree in
        r.1.0 ≡ none → IsCounted options (cutoff_of sorter order days_ago options) files r.0)
listed-IsCounted sorter order days_ago options tree files same b (err x) t h e =
    absurd (ground (arith, h))
listed-IsCounted sorter order days_ago options tree files same true (ok fs) t h e = λ k.
    let no_days : ltb 0 options.keep_days ≡ false = ground arith in
    rw no_days (count-never _ files (λ f. ground arith), λ p. absurd (ground arith))
listed-IsCounted sorter order days_ago options tree files same false (ok fs) t h e =
    subst
      (λ gs.
        (prune_listed sorter order (cutoff_of sorter order days_ago options) options (ok gs)
            tree).1.0
          ≡ none
        → IsCounted options (cutoff_of sorter order days_ago options) files
            (prune_listed sorter order (cutoff_of sorter order days_ago options) options (ok gs)
              tree).0)
      (sym (ok_inj fs files h))
      (groups-IsCounted options (cutoff_of sorter order days_ago options) files sorter order tree
        same)
      e

prune-IsCounted :
    (sorter : Sorter) (order : List Bytes → List Bytes) (days_ago : ℕ → ℕ) (dir : Bytes)
    (options : PruneOptions) (tree : Tree) (files : List File)
    → ((k : Bytes) (ks : List Bytes) → elem k (order ks) ≡ elem k ks)
    → list sorter dir tree ≡ ok files
    → (prune sorter order days_ago dir options tree).1.0 ≡ none
    → IsCounted options
        (cutoff_of sorter order days_ago options)
        files
        (prune sorter order days_ago dir options tree).0
unfolding prune
prune-IsCounted sorter order days_ago dir options tree files same listed e =
    listed-IsCounted sorter order days_ago options tree files same
      (options.keep_days == 0 && options.keep_count == 0) (list sorter dir tree) refl listed e

-- Where `Prune` returns no error, the files can be listed and no removal answers that its file was
-- gone already, then on the tree after it, of the listed files of each app and service that are
-- selected, none is there that is older than the cutoff, where days are given, and no more are there
-- than the count, where one is given. `order` lists the keys of the groups, all of them and no
-- other.
pub prune-IsSettled :
    (sorter : Sorter) (order : List Bytes → List Bytes) (days_ago : ℕ → ℕ) (dir : Bytes)
    (options : PruneOptions) (tree : Tree) (files : List File)
    → ((k : Bytes) (ks : List Bytes) → elem k (order ks) ≡ elem k ks)
    → IsReal tree.faults
    → list sorter dir tree ≡ ok files
    → (prune sorter order days_ago dir options tree).1.0 ≡ none
    → IsSettled options
        (cutoff_of sorter order days_ago options)
        files
        (prune sorter order days_ago dir options tree).1.1
prune-IsSettled sorter order days_ago dir options tree files same real listed e =
    IsSettled-of options (cutoff_of sorter order days_ago options) files _ _
      (prune-IsTaken sorter order days_ago dir options tree real e).0
      (prune-IsCounted sorter order days_ago dir options tree files same listed e)
