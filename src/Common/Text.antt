-- ===== src/Common/Text.antt =====
-- Go strings are sequences of bytes. What the program uses of package strings, and equality.
-- White space is that of ASCII.
pub mod Suffix
pub mod Trim
pub mod Split
pub mod Elem
use Prim.Native.Char.{code}
use Prim.Native.String.{String}
use Prim.Native.Nat.{ℕ}
use mathlib.Core.Path.{◌≡◌, refl}
use mathlib.Core.Logic.{◌↔◌}
use mathlib.Core.Bool.{Bool, true, false, ◌&&◌, ◌||◌}
use mathlib.Core.Option.{Option, none, some}
use mathlib.Core.List.{List, [], ◌∷◌, ◌++◌, reverse}
use native.Mathlib.Omega.{arith}
use infra_shelf.Common.Tests.{◌==◌, leb, if◌then◌else◌}
use infra_shelf.Common.Failure.{Bytes}

-- The bytes of an ASCII literal.
abbrev pub codes : String → Bytes
codes String.[] = []
codes (String.◌∷◌ c s) = code c ∷ codes s

unfoldable pub str_eq : Bytes → Bytes → Bool
str_eq [] [] = true
str_eq [] (b ∷ y) = false
str_eq (a ∷ x) [] = false
str_eq (a ∷ x) (b ∷ y) = a == b && str_eq x y

-- `x == ""`
abbrev pub is_empty : Bytes → Bool
is_empty [] = true
is_empty (a ∷ x) = false

unfoldable pub has_prefix : Bytes → Bytes → Bool
has_prefix s [] = true
has_prefix [] (b ∷ p) = false
has_prefix (a ∷ s) (b ∷ p) = a == b && has_prefix s p

unfoldable pub has_suffix : Bytes → Bytes → Bool
unfolding has_prefix
has_suffix s p = has_prefix (reverse s) (reverse p)

abbrev pub is_space : ℕ → Bool
is_space c = c == 32 || (leb 9 c && leb c 13)

unfoldable pub trim_left : Bytes → Bytes
trim_left [] = []
trim_left (c ∷ s) = if is_space c then trim_left s else c ∷ s

unfoldable pub trim_right : Bytes → Bytes
unfolding trim_left
trim_right s = reverse (trim_left (reverse s))

unfoldable pub trim_space : Bytes → Bytes
unfolding trim_left trim_right
trim_space s = trim_right (trim_left s)

-- `strings.Split(s, sep)` at a separator of one byte; `cur` is the part that is being read.
pub split_on : ℕ → Bytes → Bytes → List Bytes
split_on sep cur [] = cur ∷ []
split_on sep cur (c ∷ s) =
    let next = split_on sep [] s in
    let more = split_on sep (cur ++ c ∷ []) s in if c == sep then cur ∷ next else more

unfoldable pub split : Bytes → ℕ → List Bytes
unfolding split_on
split s sep = split_on sep [] s

unfoldable pub join : List Bytes → Bytes → Bytes
join [] sep = []
join (p ∷ []) sep = p
join (p ∷ q ∷ ps) sep = p ++ (sep ++ join (q ∷ ps) sep)

-- `strings.Cut(s, sep)`, at a separator of one byte: the text before it and after it.
unfoldable pub cut : Bytes → ℕ → Option (Bytes × Bytes)
cut [] sep = none
cut (c ∷ s) sep =
    let rest = cut s sep in
    if c == sep then some ([], s) else elim rest [ none ↦ none | some (a, b) ↦ some (c ∷ a, b) ]

-- Whether a text is among texts: a Go `map[string]bool` that was filled with `xs`.
unfoldable pub elem : Bytes → List Bytes → Bool
unfolding str_eq
elem x [] = false
elem x (y ∷ ys) = str_eq y x || elem x ys

-- `str_eq` decides equality.
pub eq_of-str_eq : (x y : Bytes) → str_eq x y ≡ true → x ≡ y
unfolding str_eq
eq_of-str_eq [] [] h = refl
eq_of-str_eq (a ∷ x) (b ∷ y) h = ground (arith, eq_of-str_eq x y)
eq_of-str_eq _ _ h = ground arith

pub str_eq_refl : (x : Bytes) → str_eq x x ≡ true
unfolding str_eq
str_eq_refl [] = refl
str_eq_refl (a ∷ x) = ground (arith, str_eq_refl x)

pub str_eq_iff : (x y : Bytes) → (str_eq x y ≡ true) ↔ (x ≡ y)
str_eq_iff x y = (eq_of-str_eq x y, λ e. rw e (str_eq_refl y))
