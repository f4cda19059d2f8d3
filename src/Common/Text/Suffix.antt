-- ===== src/Common/Text/Suffix.antt =====
-- Prefixes and suffixes of longer texts.
use mathlib.Core.List.{reverse, reverse-append}
use infra_shelf.Common.Failure.{Bytes}
use mathlib.Core.Bool.{true}
use mathlib.Core.List.{[], ◌∷◌, ◌++◌}
use mathlib.Core.Path.{◌≡◌, refl}
use native.Mathlib.Omega.{arith}
use infra_shelf.Common.Text.{has_prefix, has_suffix}

has_prefix-append : (u v p : Bytes) → has_prefix u p ≡ true → has_prefix (u ++ v) p ≡ true
unfolding has_prefix
has_prefix-append u v [] h = refl
has_prefix-append [] v (b ∷ p) h = absurd (ground arith)
has_prefix-append (a ∷ u) v (b ∷ p) h = ground (arith, has_prefix-append u v p)

pub has_suffix-append : (u v p : Bytes) → has_suffix v p ≡ true → has_suffix (u ++ v) p ≡ true
unfolding has_suffix
has_suffix-append u v p h =
    rw (reverse-append u v) (has_prefix-append (reverse v) (reverse u) (reverse p) h)
