-- ===== src/Backups/Prune/Groups.antt =====
-- internal/backup/backup.go: the groups that `Prune` makes, and the order of their files.
use infra_shelf.Common.{
  ℕ, Bytes, Bool, true, ◌&&◌, not, List, [], ◌∷◌, ◌++◌, ◌+◌, ◌≤◌, leb, ltb, ◌≡◌, refl,
  if◌then◌else◌, arith, All, count, count-append, Bool-cases, inl, inr, subst, sym,
}
use infra_shelf.Common.Text.{str_eq, str_eq_refl, eq_of-str_eq}
use infra_shelf.Common.Dict.{Dict, insert, lookup, lookup-insert}
use infra_shelf.Backups.{File, PruneOptions}
use infra_shelf.Backups.Tree.{Sorter, IsNewestFirst}
use infra_shelf.Backups.Prune.{group_key, is_selected, group_at, group_files}

-- The file is among the files.
abbrev pub is_listed : List File → File → Bool
is_listed files f = ltb 0 (count (λ g. str_eq g.path f.path) files)

-- The files that a file is counted with, and that are not older than it.
abbrev pub is_newer : PruneOptions → File → File → Bool
is_newer options f g =
    is_selected options g && str_eq (group_key g) (group_key f) && leb f.modified g.modified

-- Among the files in a group.
abbrev pub in_group : PruneOptions → Bytes → (File → Bool) → File → Bool
in_group options k p f = is_selected options f && str_eq (group_key f) k && p f

abbrev with_file : Dict (List File) → File → Dict (List File)
with_file groups f = insert (group_key f) (group_at (lookup (group_key f) groups) ++ f ∷ []) groups

count-with_file :
    (p : File → Bool) (k : Bytes) (groups : Dict (List File)) (f : File)
    → count p (group_at (lookup k (with_file groups f)))
      ≡ count p (group_at (lookup k groups)) + (if str_eq (group_key f) k && p f then 1 else 0)
count-with_file p k groups f = elim (Bool-cases (str_eq (group_key f) k)) [
  | inl e ↦
      subst
        (λ j.
          count p (group_at (lookup j (with_file groups f)))
          ≡ count p (group_at (lookup j groups)) + (if str_eq (group_key f) j && p f then 1 else 0))
        (eq_of-str_eq (group_key f) k e)
        (rw (lookup-insert, str_eq_refl (group_key f))
          (ground (arith, count-append p (group_at (lookup (group_key f) groups)) (f ∷ []))))
  | inr e ↦ rw (lookup-insert, e) (omega arith)
]

count-group_files :
    (options : PruneOptions) (p : File → Bool) (k : Bytes) (groups : Dict (List File))
    (fs : List File)
    → count p (group_at (lookup k (group_files options groups fs)))
      ≡ count p (group_at (lookup k groups)) + count (in_group options k p) fs
unfolding group_files
count-group_files options p k groups [] = omega arith
count-group_files options p k groups (f ∷ fs) = elim (Bool-cases (is_selected options f)) [
  | inr e ↦ ground (arith, count-group_files options p k groups fs)
  | inl e ↦ rw e (
      ground (
        arith,
        count-group_files options p k (with_file groups f) fs,
        count-with_file p k groups f,
      ))
]

-- No element fails the test, when none is counted that does.
All-of-count :
    (p : File → Bool) (fs : List File) → count (λ f. not (p f)) fs ≡ 0 → All (λ f. p f ≡ true) fs
All-of-count p [] h = tt
All-of-count p (f ∷ fs) h = (ground arith, All-of-count p fs (ground arith))

-- How many are not older than a time.
abbrev newer : ℕ → List File → ℕ
newer t fs = count (λ g. leb t g.modified) fs

abbrev IsUpTo : ℕ → List File → Type 0
IsUpTo t [] = Unit
IsUpTo t (f ∷ fs) = leb t f.modified ≡ true

-- The file at each place has that many before it that are not older.
abbrev IsRanked : (ℕ → ℕ) → ℕ → List File → Type 0
IsRanked above index [] = Unit
IsRanked above index (f ∷ fs) = (index + 1 ≤ above f.modified) × IsRanked above (index + 1) fs

newest_first-IsRanked :
    (above : ℕ → ℕ) (index : ℕ) (fs : List File)
    → IsNewestFirst fs
    → ((t : ℕ) → IsUpTo t fs → index + newer t fs ≤ above t)
    → IsRanked above index fs
newest_first-IsRanked above index [] s h = tt
newest_first-IsRanked above index (f ∷ []) s h = (ground (arith, h f.modified (ground arith)), tt)
newest_first-IsRanked above index (f ∷ g ∷ fs) (s, ss) h = (
  ground (arith, h f.modified (ground arith)),
  newest_first-IsRanked above (index + 1) (g ∷ fs) ss (λ t u. ground (arith, h t (ground arith))),
)

-- Each file of a group is listed and selected, and has at least as many files before it.
abbrev pub IsPlaced : PruneOptions → List File → Bytes → ℕ → List File → Type 0
IsPlaced options files k index [] = Unit
IsPlaced options files k index (f ∷ fs) =
    (is_listed files f && is_selected options f ≡ true)
    × (index + 1 ≤ count (is_newer options f) files)
    × IsPlaced options files k (index + 1) fs

ranked-IsPlaced :
    (options : PruneOptions) (files : List File) (k : Bytes) (index : ℕ) (fs : List File)
    → IsRanked (λ t. count (in_group options k (λ g. leb t g.modified)) files) index fs
    → All (λ f. is_listed files f && in_group options k (λ _. true) f ≡ true) fs
    → IsPlaced options files k index fs
ranked-IsPlaced options files k index [] r h = tt
ranked-IsPlaced options files k index (f ∷ fs) (r, rs) (h, hs) = (
  ground arith,
  subst (λ j. index + 1 ≤ count (in_group options j (λ g. leb f.modified g.modified)) files)
      (sym (eq_of-str_eq (group_key f) k (ground arith))) r,
  ranked-IsPlaced options files k (index + 1) fs rs hs,
)

All-is_listed :
    (files fs : List File)
    → ((q : File → Bool) → count q fs ≤ count q files)
    → All (λ f. is_listed files f ≡ true) fs
All-is_listed files [] h = tt
All-is_listed files (f ∷ fs) h = (
  ground (arith, h (λ g. str_eq g.path f.path), str_eq_refl f.path),
  All-is_listed files fs (λ q. ground (arith, h q)),
)

none_stray :
    (options : PruneOptions) (files fs : List File) (k : Bytes)
    → All (λ f. is_listed files f ≡ true) fs
    → count
        (in_group options k (λ f. not (is_listed files f && in_group options k (λ _. true) f)))
        fs
      ≡ 0
none_stray options files [] k h = refl
none_stray options files (f ∷ fs) k (h, hs) = ground (arith, none_stray options files fs k hs)

module _ (sorter : Sorter) (options : PruneOptions) (files : List File) (k : Bytes) where
  abbrev pub group_sorted : List File
  group_sorted = sorter.sort (group_at (lookup k (group_files options [] files)))

  pub count-group_sorted :
      (p : File → Bool) → count p group_sorted ≡ count (in_group options k p) files
  unfolding lookup
  count-group_sorted p = omega (
    arith,
    sorter.count-sort p (group_at (lookup k (group_files options [] files))),
    count-group_files options p k [] files,
  )

  pub group_sorted-IsPlaced : IsPlaced options files k 0 group_sorted
  group_sorted-IsPlaced =
      ranked-IsPlaced options files k 0 group_sorted
        (newest_first-IsRanked (λ t. count (in_group options k (λ g. leb t g.modified)) files) 0
          group_sorted
          (sorter.sort-IsNewestFirst (group_at (lookup k (group_files options [] files))))
          (λ t u. omega (arith, count-group_sorted (λ g. leb t g.modified))))
        (All-of-count (λ f. is_listed files f && in_group options k (λ _. true) f) group_sorted
          (omega (
            arith,
            count-group_sorted (λ f. not (is_listed files f && in_group options k (λ _. true) f)),
            none_stray options files files k (All-is_listed files files (λ q. omega arith)),
          )))
