-- ===== src/Backups/Prune/Thorough.antt =====
-- internal/backup/backup.go: what the loops of `Prune` leave where they return no error.
use infra_shelf.Common.{
  ℕ, Bytes, Bool, true, false, ◌&&◌, not, List, [], ◌∷◌, ◌++◌, ◌+◌, ◌-◌, ◌≤◌, Option, none, some,
  Error, ltb, ◌≡◌, refl, if◌then◌else◌, arith, count, count-le, Bool-cases, inl, inr, subst,
}
use infra_shelf.Common.Text.{elem, str_eq, str_eq_refl, str_eq_iff}
use infra_shelf.Backups.{File, PruneOptions}
use infra_shelf.Backups.Tree.{Tree, Sorter, remove}
use infra_shelf.Backups.Prune.{
  group_files, is_old, is_over, failure, Pruned, prune_group, prune_groups,
}
use infra_shelf.Backups.Prune.Groups.{group_sorted}
use infra_shelf.Backups.Prune.Kept.{is_gone, is_gone-append}

-- What is gone stays gone.
abbrev pub Grows : List File → List File → Type 0
Grows before after = (a n : Bytes) → is_gone before a n ≡ true → is_gone after a n ≡ true

Grows-append : (xs ys : List File) → Grows xs (xs ++ ys)
Grows-append xs ys a n h = ground (arith, is_gone-append xs ys a n)

-- The files that are left, and those of them that pass a test.
abbrev pub left : List File → File → Bool
left deleted f = not (is_gone deleted f.app f.name)

module _ (cutoff : Option ℕ) (keep_count : ℕ) where
  abbrev pub old_left : List File → File → Bool
  old_left deleted f = is_old cutoff f && left deleted f

  -- Of the files of a group from an index on, none is left that is old, and no more than are kept.
  abbrev pub IsThorough : ℕ → List File → List File → Type 0
  IsThorough index fs deleted =
      (count (old_left deleted) fs ≡ 0)
      × (ltb 0 keep_count ≡ true → count (left deleted) fs ≤ keep_count - index)

  IsThorough-gone :
      (index : ℕ) (f : File) (fs deleted : List File)
      → is_gone deleted f.app f.name ≡ true
      → IsThorough (index + 1) fs deleted
      → IsThorough index (f ∷ fs) deleted
  IsThorough-gone index f fs deleted g (o, k) = (ground arith, λ p. ground (arith, k p))

  IsThorough-kept :
      (index : ℕ) (f : File) (fs deleted : List File)
      → not (is_old cutoff f) && not (is_over keep_count index) ≡ true
      → IsThorough (index + 1) fs deleted
      → IsThorough index (f ∷ fs) deleted
  IsThorough-kept index f fs deleted g (o, k) = (ground arith, λ p. ground (arith, k p))

  -- A loop that got so far takes more away, and is thorough where it returns no error.
  abbrev IsDone : ℕ → List File → List File → Pruned → Type 0
  IsDone index fs deleted r = Grows deleted r.0 × (r.1.0 ≡ none → IsThorough index fs r.0)

  IsDone-removed :
      (index : ℕ) (f : File) (fs deleted : List File) (tree' : Tree) (rest : Pruned)
      (o : Option Error)
      → IsDone (index + 1) fs (deleted ++ f ∷ []) rest
      → IsDone index (f ∷ fs) deleted (elim o [ some e ↦ (deleted, (some e, tree')) | none ↦ rest ])
  IsDone-removed index f fs deleted tree' rest (some e) d = (λ a n h. h, λ e. absurd (ground arith))
  IsDone-removed index f fs deleted tree' rest none (g, d) = (
    λ a n h. g a n (Grows-append deleted (f ∷ []) a n h),
    λ e.
        IsThorough-gone index f fs rest.0
          (g f.app f.name (
            ground (
              arith,
              is_gone-append deleted (f ∷ []) f.app f.name,
              str_eq_refl f.app,
              str_eq_refl f.name,
            )))
          (d e),
  )

  prune_group-IsDone :
      (index : ℕ) (fs deleted : List File) (tree : Tree)
      → IsDone index fs deleted (prune_group cutoff keep_count index fs deleted tree)
  unfolding prune_group
  prune_group-IsDone index [] deleted tree = (λ a n h. h, λ e. (refl, λ p. omega arith))
  prune_group-IsDone index (f ∷ fs) deleted tree =
      on_test (not (is_old cutoff f) && not (is_over keep_count index)) refl
        (prune_group-IsDone (index + 1) fs deleted tree)
        (prune_group-IsDone (index + 1) fs (deleted ++ f ∷ []) tree')
    where
      tree' : Tree
      tree' = (remove f.app f.name tree).1

      kept : Pruned
      kept = prune_group cutoff keep_count (index + 1) fs deleted tree

      rest : Pruned
      rest = prune_group cutoff keep_count (index + 1) fs (deleted ++ f ∷ []) tree'

      ended : Pruned
      ended = elim (failure (remove f.app f.name tree).0) [
        | some e ↦ (deleted, (some e, tree'))
        | none ↦ rest
      ]

      on_test :
          (b : Bool)
          → not (is_old cutoff f) && not (is_over keep_count index) ≡ b
          → IsDone (index + 1) fs deleted kept
          → IsDone (index + 1) fs (deleted ++ f ∷ []) rest
          → IsDone index (f ∷ fs) deleted (if b then kept else ended)
      on_test true t (g, d) h = (g, λ e. IsThorough-kept index f fs kept.0 t (d e))
      on_test false t h d =
          IsDone-removed index f fs deleted tree' rest (failure (remove f.app f.name tree).0) d

  IsThorough-more :
      (index : ℕ) (fs before after : List File)
      → Grows before after
      → IsThorough index fs before
      → IsThorough index fs after
  IsThorough-more index fs before after g (o, k) =
      let fewer : (f : File) → left after f ≡ true → left before f ≡ true =
        λ f h. ground (arith, g f.app f.name) in
      (
        omega (
          arith,
          o,
          count-le (old_left after) (old_left before) (λ f h. ground (arith, fewer f)) fs,
        ),
        λ p. omega (arith, k p, count-le (left after) (left before) fewer fs),
      )

  module _ (sorter : Sorter) (options : PruneOptions) (files : List File) where
    abbrev pub IsAllDone : List Bytes → List File → Pruned → Type 0
    IsAllDone ks deleted r =
        Grows deleted r.0
        × (r.1.0 ≡ none
            → (k : Bytes) → elem k ks ≡ true
            → IsThorough 0 (group_sorted sorter options files k) r.0)

    pub prune_groups-IsAllDone :
        (ks : List Bytes) (deleted : List File) (tree : Tree)
        → IsAllDone ks deleted
            (prune_groups sorter cutoff keep_count (group_files options [] files) ks deleted tree)
    unfolding prune_groups elem
    prune_groups-IsAllDone [] deleted tree = (λ a n h. h, λ e k h. absurd (ground arith))
    prune_groups-IsAllDone (k ∷ ks) deleted tree =
        on_error one.1.0 (prune_group-IsDone 0 (group_sorted sorter options files k) deleted tree)
          (prune_groups-IsAllDone ks one.0 one.1.1)
      where
        one : Pruned
        one = prune_group cutoff keep_count 0 (group_sorted sorter options files k) deleted tree

        rest : Pruned
        rest = prune_groups sorter cutoff keep_count (group_files options [] files) ks one.0 one.1.1

        on_key :
            (j : Bytes)
            → Grows one.0 rest.0
            → IsThorough 0 (group_sorted sorter options files k) one.0
            → (elem j ks ≡ true → IsThorough 0 (group_sorted sorter options files j) rest.0)
            → elem j (k ∷ ks) ≡ true
            → IsThorough 0 (group_sorted sorter options files j) rest.0
        on_key j g t later h = elim (Bool-cases (str_eq k j)) [
          | inl e ↦
              subst (λ i. IsThorough 0 (group_sorted sorter options files i) rest.0)
                ((str_eq_iff k j).0 e)
                (IsThorough-more 0 (group_sorted sorter options files k) one.0 rest.0 g t)
          | inr e ↦ later (unfold elem in ground (arith, e, h))
        ]

        on_error :
            (e : Option Error)
            → IsDone 0 (group_sorted sorter options files k) deleted (one.0, (e, one.1.1))
            → IsAllDone ks one.0 rest
            → IsAllDone
                (k ∷ ks)
                deleted
                (elim e [ some e ↦ (one.0, (some e, one.1.1)) | none ↦ rest ])
        on_error (some e) (g, d) h = (g, λ e. absurd (ground arith))
        on_error none (g, d) (g', d') =
            (λ a n h. g' a n (g a n h), λ e j h. on_key j g' (d refl) (d' e j) h)
