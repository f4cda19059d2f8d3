-- ===== src/Config/Root.antt =====
-- internal/config/config.go: which directory `resolveRoot` finds.
use infra_shelf.Common.{
  ℕ, Bytes, Bool, true, false, List, [], ◌∷◌, Result, ok, err, ◌≡◌, refl, ◌≤◌, ◌<◌, ◌+◌, zero, suc,
  length, drop, if◌then◌else◌, arith, root_not_found,
}
use infra_shelf.Common.Text.{codes, has_prefix, split}
use infra_shelf.Common.Dict.{lookup, value_of}
use infra_shelf.Common.Paths.{clean, clean_names, render}
use infra_shelf.Config.{Host, absolute, is_root, find_root, resolve_root}

module _ (host : Host) where
  -- The directory that is `k` levels above the one with these names, which stand from the last.
  abbrev pub above : ℕ → List Bytes → Bytes
  above k names = render true (drop k names)

  -- No directory is a root that is fewer than `k` levels above.
  abbrev pub NoneBelow : ℕ → List Bytes → Type 0
  NoneBelow k names = (j : ℕ) → j < k → is_root host (above j names) ≡ false

  -- The nearest root at or above a directory, or the error where there is none.
  abbrev pub IsNearest : List Bytes → Result Bytes → Type 0
  IsNearest names (ok dir) =
      (k : ℕ) × (k ≤ length names)
      × (dir ≡ above k names)
      × (is_root host dir ≡ true)
      × NoneBelow k names
  IsNearest names (err e) = NoneBelow (length names + 1) names

  NoneBelow-next :
      (k : ℕ) (n : Bytes) (ns : List Bytes)
      → is_root host (render true (n ∷ ns)) ≡ false
      → NoneBelow k ns
      → NoneBelow (suc k) (n ∷ ns)
  NoneBelow-next k n ns h g zero l = h
  NoneBelow-next k n ns h g (suc j) l = g j (omega arith)

  IsNearest-above :
      (n : Bytes) (ns : List Bytes) (r : Result Bytes)
      → is_root host (render true (n ∷ ns)) ≡ false
      → IsNearest ns r
      → IsNearest (n ∷ ns) r
  IsNearest-above n ns (ok dir) h (k, l, e, t, g) =
      (suc k, omega arith, e, t, NoneBelow-next k n ns h g)
  IsNearest-above n ns (err e) h g = λ j l. NoneBelow-next (length ns + 1) n ns h g j (omega arith)

  on_root :
      (names : List Bytes) (b : Bool) (rest : Result Bytes)
      → is_root host (render true names) ≡ b
      → (b ≡ false → IsNearest names rest)
      → IsNearest names (if b then ok (render true names) else rest)
  on_root names true rest e h = (0, omega arith, refl, e, λ j l. absurd (omega arith))
  on_root names false rest e h = h refl

  none_at_root : is_root host (render true []) ≡ false → (j : ℕ) → is_root host (above j []) ≡ false
  none_at_root e zero = e
  none_at_root e (suc j) = e

  find_root-IsNearest : (names : List Bytes) → IsNearest names (find_root host names)
  unfolding find_root
  find_root-IsNearest [] =
      on_root [] (is_root host (render true [])) (err root_not_found) refl
        (λ e j l. none_at_root e j)
  find_root-IsNearest (n ∷ ns) =
      on_root (n ∷ ns) (is_root host (render true (n ∷ ns))) (find_root host ns) refl
        (λ e. IsNearest-above n ns (find_root host ns) e (find_root-IsNearest ns))

-- Without INFRA_SHELF_ROOT, in an absolute directory: `resolveRoot` gives the nearest directory at
-- or above it that has both marker files, and fails only if there is none up to the root.
pub resolve_root-IsNearest :
    (host : Host) (wd : Bytes)
    → value_of (lookup (codes "INFRA_SHELF_ROOT") host.environment) ≡ []
    → host.working_directory ≡ ok wd
    → has_prefix wd (codes "/") ≡ true
    → IsNearest host (clean_names true [] (split (clean wd) b'/')) (resolve_root host)
unfolding resolve_root absolute
resolve_root-IsNearest host wd unset here rooted =
    rw (unset, here, rooted)
      (find_root-IsNearest host (clean_names true [] (split (clean wd) b'/')))
