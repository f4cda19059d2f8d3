-- ===== src/Scheduler/Table/Laws.antt =====
-- What is found after a change of a table, and that the keys stay in order.
use infra_shelf.Common.{
  ℕ, Bool, List, [], ◌∷◌, ◌++◌, Option, none, some, is_some, ◌==◌, if◌then◌else◌, ◌≤◌, ◌<◌, ◌+◌,
  ◌≡◌, refl, arith, Bool-cases, inl, inr,
}
use infra_shelf.Scheduler.Table.{find_row, change_row, remove_row}

-- The row that is found, changed if it is the one that the change is for.
abbrev pub changed {κ} : {B : Type κ} → (B → B) → Bool → Option B → Option B
changed f b none = none
changed f b (some r) = some (if b then f r else r)

module _ {ℓ} {A : Type ℓ} (key : A → ℕ) where
  -- The keys ascend from above `low` up to `high`.
  abbrev pub IsAscending : ℕ → List A → ℕ → Type 0
  IsAscending low [] high = low ≤ high
  IsAscending low (r ∷ rs) high = (low < key r) × IsAscending (key r) rs high

  pub IsAscending-le : (low : ℕ) (rs : List A) (high : ℕ) → IsAscending low rs high → low ≤ high
  IsAscending-le low [] high h = h
  IsAscending-le low (r ∷ rs) high (l, h) = omega (arith, IsAscending-le (key r) rs high h)

  pub IsAscending-lower :
      (low low' : ℕ) (rs : List A) (high : ℕ)
      → low' ≤ low
      → IsAscending low rs high
      → IsAscending low' rs high
  IsAscending-lower low low' [] high l h = omega arith
  IsAscending-lower low low' (r ∷ rs) high l (k, h) = (omega arith, h)

  pub IsAscending-snoc :
      (low : ℕ) (rs : List A) (high : ℕ) (r : A)
      → key r ≡ high + 1
      → IsAscending low rs high
      → IsAscending low (rs ++ r ∷ []) (high + 1)
  IsAscending-snoc low [] high r k h = (omega arith, omega arith)
  IsAscending-snoc low (x ∷ rs) high r k (l, h) = (l, IsAscending-snoc (key x) rs high r k h)

  pub IsAscending-change :
      (id : ℕ) (f : A → A) (low : ℕ) (rs : List A) (high : ℕ)
      → ((r : A) → key (f r) ≡ key r)
      → IsAscending low rs high
      → IsAscending low (change_row key id f rs) high
  unfolding change_row
  IsAscending-change id f low [] high same h = h
  IsAscending-change id f low (r ∷ rs) high same (l, h) = elim (Bool-cases (key r == id)) [
    | inl this ↦
        rw this
          (omega (arith, same r), rw (same r) (IsAscending-change id f (key r) rs high same h))
    | inr other ↦ rw other (l, IsAscending-change id f (key r) rs high same h)
  ]

  pub IsAscending-remove :
      (id low : ℕ) (rs : List A) (high : ℕ)
      → IsAscending low rs high
      → IsAscending low (remove_row key id rs) high
  unfolding remove_row
  IsAscending-remove id low [] high h = h
  IsAscending-remove id low (r ∷ rs) high (l, h) = elim (Bool-cases (key r == id)) [
    | inl this ↦
        rw this (
          IsAscending-remove id low rs high (IsAscending-lower (key r) low rs high (omega arith) h))
    | inr other ↦ rw other (l, IsAscending-remove id (key r) rs high h)
  ]

  -- a key above the last one is not there
  pub find_above :
      (id low : ℕ) (rs : List A) (high : ℕ)
      → IsAscending low rs high
      → high < id
      → find_row key id rs ≡ none
  unfolding find_row
  find_above id low [] high h l = refl
  find_above id low (r ∷ rs) high (k, h) l =
      ground (arith, find_above id (key r) rs high h l, IsAscending-le (key r) rs high h)

  pub find_row-snoc :
      (id : ℕ) (rs : List A) (r : A)
      → find_row key id (rs ++ r ∷ []) ≡ (
          let old = find_row key id rs in
          if is_some old then old else if key r == id then some r else none)
  unfolding find_row
  find_row-snoc id [] r = refl
  find_row-snoc id (x ∷ rs) r = ground (arith, find_row-snoc id rs r)

  pub find_row-change :
      (id k : ℕ) (f : A → A) (rs : List A)
      → ((r : A) → key (f r) ≡ key r)
      → find_row key k (change_row key id f rs) ≡ changed f (id == k) (find_row key k rs)
  unfolding find_row change_row
  find_row-change id k f [] same = refl
  find_row-change id k f (r ∷ rs) same = ground (arith, same r, find_row-change id k f rs same)

  pub find_row-remove :
      (id k : ℕ) (rs : List A)
      → find_row key k (remove_row key id rs) ≡ (if id == k then none else find_row key k rs)
  unfolding find_row remove_row
  find_row-remove id k [] = ground arith
  find_row-remove id k (r ∷ rs) = ground (arith, find_row-remove id k rs)
