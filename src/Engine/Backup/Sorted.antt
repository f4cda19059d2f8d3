-- ===== src/Engine/Backup/Sorted.antt =====
-- `sortStrings` sorts.
use infra_shelf.Common.{
  ℕ, Bytes, false, List, [], ◌∷◌, ◌+◌, ◌≡◌, refl, arith, if◌then◌else◌, Bool-cases, inl, inr,
}
use infra_shelf.Common.Text.{str_eq}
use infra_shelf.Common.Order.{str_lt, str_lt_asymm}
use infra_shelf.Engine.Backup.{insert_sorted, sort_into, sort_strings}

-- How often a text stands in a list.
abbrev pub count : Bytes → List Bytes → ℕ
count x [] = 0
count x (y ∷ ys) = let later = count x ys in if str_eq y x then 1 + later else later

-- The head of the list is not before `x`.
abbrev IsBelow : Bytes → List Bytes → Type 0
IsBelow x [] = Unit
IsBelow x (y ∷ ys) = str_lt y x ≡ false

-- No text stands before a smaller one.
abbrev pub IsAscending : List Bytes → Type 0
IsAscending [] = Unit
IsAscending (x ∷ xs) = IsBelow x xs × IsAscending xs

IsBelow-insert_sorted :
    (x y : Bytes) (ys : List Bytes)
    → str_lt x y ≡ false
    → IsBelow y ys
    → IsBelow y (insert_sorted x ys)
unfolding insert_sorted
IsBelow-insert_sorted x y [] h b = h
IsBelow-insert_sorted x y (z ∷ zs) h b = elim (Bool-cases (str_lt x z)) [
  | inl before ↦ rw before h
  | inr after ↦ rw after b
]

insert_sorted-IsAscending :
    (x : Bytes) (ys : List Bytes) → IsAscending ys → IsAscending (insert_sorted x ys)
unfolding insert_sorted
insert_sorted-IsAscending x [] h = (tt, tt)
insert_sorted-IsAscending x (y ∷ ys) (b, h) = elim (Bool-cases (str_lt x y)) [
  | inl before ↦ rw before (str_lt_asymm x y before, (b, h))
  | inr after ↦ rw after (IsBelow-insert_sorted x y ys after b, insert_sorted-IsAscending x ys h)
]

count-insert_sorted :
    (z x : Bytes) (ys : List Bytes) → count z (insert_sorted x ys) ≡ count z (x ∷ ys)
unfolding insert_sorted
count-insert_sorted z x [] = refl
count-insert_sorted z x (y ∷ ys) = grind (arith, count-insert_sorted z x ys)

sort_into_lem :
    (done xs : List Bytes)
    → IsAscending done
    → IsAscending (sort_into done xs)
      × ((z : Bytes) → count z (sort_into done xs) ≡ count z done + count z xs)
unfolding sort_into
sort_into_lem done [] h = (h, λ z. omega arith)
sort_into_lem done (x ∷ xs) h =
    let (sorted, counts) =
      sort_into_lem (insert_sorted x done) xs (insert_sorted-IsAscending x done h) in
    (sorted, λ z. grind (arith, counts z, count-insert_sorted z x done))

-- `sortStrings` leaves its texts in ascending order, each as often as it was there.
pub sort_strings_lem :
    (s : List Bytes)
    → IsAscending (sort_strings s) × ((z : Bytes) → count z (sort_strings s) ≡ count z s)
unfolding sort_strings
sort_strings_lem s =
    let (sorted, counts) = sort_into_lem [] s tt in (sorted, λ z. omega (arith, counts z))
