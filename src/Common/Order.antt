-- ===== src/Common/Order.antt =====
-- The order `<` of Go strings: byte by byte.
use mathlib.Core.Path.{◌≡◌, refl}
use mathlib.Core.Bool.{Bool, true, false}
use mathlib.Core.List.{[], ◌∷◌}
use native.Mathlib.Omega.{arith}
use infra_shelf.Common.Tests.{ltb, if◌then◌else◌}
use infra_shelf.Common.Failure.{Bytes}

unfoldable pub str_lt : Bytes → Bytes → Bool
str_lt [] [] = false
str_lt [] (b ∷ y) = true
str_lt (a ∷ x) [] = false
str_lt (a ∷ x) (b ∷ y) = if ltb a b then true else if ltb b a then false else str_lt x y

pub str_lt_irrefl : (x : Bytes) → str_lt x x ≡ false
unfolding str_lt
str_lt_irrefl [] = refl
str_lt_irrefl (a ∷ x) = ground (arith, str_lt_irrefl x)

pub str_lt_trans : (x y z : Bytes) → str_lt x y ≡ true → str_lt y z ≡ true → str_lt x z ≡ true
unfolding str_lt
str_lt_trans [] [] z p q = ground arith
str_lt_trans [] (b ∷ y) [] p q = ground arith
str_lt_trans [] (b ∷ y) (c ∷ z) p q = refl
str_lt_trans (a ∷ x) [] z p q = ground arith
str_lt_trans (a ∷ x) (b ∷ y) [] p q = ground arith
str_lt_trans (a ∷ x) (b ∷ y) (c ∷ z) p q = ground (arith, str_lt_trans x y z)

-- Of two texts neither of which is before the other, each is the other.
pub str_lt_connected : (x y : Bytes) → str_lt x y ≡ false → str_lt y x ≡ false → x ≡ y
unfolding str_lt
str_lt_connected [] [] p q = refl
str_lt_connected [] (b ∷ y) p q = ground arith
str_lt_connected (a ∷ x) [] p q = ground arith
str_lt_connected (a ∷ x) (b ∷ y) p q = ground (arith, str_lt_connected x y)

pub str_lt_asymm : (x y : Bytes) → str_lt x y ≡ true → str_lt y x ≡ false
unfolding str_lt
str_lt_asymm [] [] p = refl
str_lt_asymm [] (b ∷ y) p = refl
str_lt_asymm (a ∷ x) [] p = ground arith
str_lt_asymm (a ∷ x) (b ∷ y) p = ground (arith, str_lt_asymm x y)
