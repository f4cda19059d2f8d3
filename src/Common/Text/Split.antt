-- ===== src/Common/Text/Split.antt =====
-- `strings.Split` and `strings.Join` undo one another.
use Prim.Native.Nat.{ℕ}
use mathlib.Core.Path.{◌≡◌, refl}
use mathlib.Core.Logic.{◌≢◌}
use mathlib.Core.Bool.{false}
use mathlib.Core.List.{List, [], ◌∷◌, ◌++◌, append_assoc, append-nil}
use native.Mathlib.Omega.{arith}
use infra_shelf.Common.Tests.{◌==◌}
use infra_shelf.Common.Lists.{All}
use infra_shelf.Common.Failure.{Bytes}
use infra_shelf.Common.Text.{split_on, split, join}

-- The byte does not stand in the text.
abbrev pub Lacks : ℕ → Bytes → Type 0
Lacks b = All (λ c. (c == b) ≡ false)

split_on-sep :
    (sep : ℕ) (p rest cur : Bytes)
    → Lacks sep p
    → split_on sep cur (p ++ sep ∷ rest) ≡ (cur ++ p) ∷ split_on sep [] rest
unfolding split_on
split_on-sep sep [] rest cur h = ground (arith, append-nil cur)
split_on-sep sep (c ∷ p) rest cur (hc, h) =
    ground (arith, split_on-sep sep p rest (cur ++ c ∷ []) h, append_assoc cur (c ∷ []) p)

split_on-Lacks : (sep : ℕ) (p cur : Bytes) → Lacks sep p → split_on sep cur p ≡ (cur ++ p) ∷ []
unfolding split_on
split_on-Lacks sep [] cur h = ground (arith, append-nil cur)
split_on-Lacks sep (c ∷ p) cur (hc, h) =
    ground (arith, split_on-Lacks sep p (cur ++ c ∷ []) h, append_assoc cur (c ∷ []) p)

pub split-Lacks : (sep : ℕ) (p : Bytes) → Lacks sep p → split p sep ≡ p ∷ []
unfolding split
split-Lacks sep p h = split_on-Lacks sep p [] h

pub split-sep :
    (sep : ℕ) (p rest : Bytes) → Lacks sep p → split (p ++ sep ∷ rest) sep ≡ p ∷ split rest sep
unfolding split
split-sep sep p rest h = split_on-sep sep p rest [] h

pub split-join :
    (sep : ℕ) (ps : List Bytes) → ps ≢ [] → All (Lacks sep) ps → split (join ps (sep ∷ [])) sep ≡ ps
unfolding join
split-join sep [] ne h = absurd (ne refl)
split-join sep (p ∷ []) ne (hp, h) = split-Lacks sep p hp
split-join sep (p ∷ q ∷ ps) ne (hp, h) =
    rw (split-sep sep p (join (q ∷ ps) (sep ∷ [])) hp, split-join sep (q ∷ ps) (cc) h)
