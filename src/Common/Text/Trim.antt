-- ===== src/Common/Text/Trim.antt =====
-- White space at the ends of a text.
use mathlib.Core.Path.{◌≡◌, refl}
use mathlib.Core.Bool.{false}
use mathlib.Core.List.{List, [], ◌∷◌, reverse, reverse-reverse, reverse-append}
use infra_shelf.Common.Lists.{All, All-append}
use infra_shelf.Common.Failure.{Bytes}
use infra_shelf.Common.Text.{is_space, trim_left, trim_right, trim_space}

-- No byte is white space.
abbrev pub IsWord : Bytes → Type 0
IsWord = All (λ c. is_space c ≡ false)

pub All-reverse {ℓ κ} : {A : Type ℓ} (P : A → Type κ) (xs : List A) → All P xs → All P (reverse xs)
All-reverse P [] h = tt
All-reverse P (x ∷ xs) (px, h) =
    rw (reverse-append (x ∷ []) xs)
      (All-append P (reverse xs) (x ∷ []) (All-reverse P xs h) (px, tt))

trim_left-IsWord : (s : Bytes) → IsWord s → trim_left s ≡ s
unfolding trim_left
trim_left-IsWord [] h = refl
trim_left-IsWord (c ∷ s) (hc, h) = rw hc

trim_right-IsWord : (s : Bytes) → IsWord s → trim_right s ≡ s
unfolding trim_right
trim_right-IsWord s h =
    rw (trim_left-IsWord (reverse s) (All-reverse (λ c. is_space c ≡ false) s h))
      (reverse-reverse s)

pub trim_space-IsWord : (s : Bytes) → IsWord s → trim_space s ≡ s
trim_space-IsWord s h = unfold trim_space in rw (trim_left-IsWord s h) (trim_right-IsWord s h)
