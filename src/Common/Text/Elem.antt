-- ===== src/Common/Text/Elem.antt =====
-- Lists of texts without repetition.
use mathlib.Core.Path.{◌≡◌, refl, subst}
use mathlib.Core.Logic.{inl, inr}
use infra_shelf.Common.Tests.{Bool-cases}
use mathlib.Core.Bool.{true, false, ◌||◌}
use mathlib.Core.List.{List, [], ◌∷◌, ◌++◌}
use native.Mathlib.Omega.{arith}
use infra_shelf.Common.Lists.{All}
use infra_shelf.Common.Failure.{Bytes}
use infra_shelf.Common.Text.{str_eq, str_eq_iff, str_eq_refl, elem}

-- No text stands twice.
abbrev pub IsDistinct : List Bytes → Type 0
IsDistinct [] = Unit
IsDistinct (x ∷ xs) = (elem x xs ≡ false) × IsDistinct xs

pub elem-append : (x : Bytes) (xs ys : List Bytes) → elem x (xs ++ ys) ≡ (elem x xs || elem x ys)
unfolding elem
elem-append x [] ys = refl
elem-append x (y ∷ xs) ys = ground (arith, elem-append x xs ys)

pub elem_self : (x : Bytes) (xs : List Bytes) → elem x (x ∷ xs) ≡ true
unfolding elem
elem_self x xs = ground (arith, str_eq_refl x)

pub str_eq_comm : (x y : Bytes) → str_eq x y ≡ str_eq y x
str_eq_comm x y = ground (arith, str_eq_iff x y, str_eq_iff y x)

pub IsDistinct-snoc :
    (xs : List Bytes) (x : Bytes) → IsDistinct xs → elem x xs ≡ false → IsDistinct (xs ++ x ∷ [])
unfolding elem
IsDistinct-snoc [] x d h = (refl, tt)
IsDistinct-snoc (y ∷ xs) x (hy, d) h =
    ground (arith, IsDistinct-snoc xs x d, elem-append y xs (x ∷ []), str_eq_comm x y)

-- A property of the members is a property of any text among them.
pub All-elem {κ} :
    (P : Bytes → Type κ) (x : Bytes) (xs : List Bytes) → All P xs → elem x xs ≡ true → P x
unfolding elem
All-elem P x [] h e = absurd (ground arith)
All-elem P x (y ∷ xs) (py, h) e = elim (Bool-cases (str_eq y x)) [
  | inl same ↦ subst P ((str_eq_iff y x).0 same) py
  | inr other ↦ All-elem P x xs h (ground arith)
]
