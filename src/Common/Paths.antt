-- ===== src/Common/Paths.antt =====
-- Go's package path, and path/filepath on Unix.
use mathlib.Core.Bool.{Bool, true, false, ◌||◌, not}
use mathlib.Core.List.{List, [], ◌∷◌, reverse}
use infra_shelf.Common.Tests.{if◌then◌else◌}
use infra_shelf.Common.Lists.{filter}
use infra_shelf.Common.Failure.{Bytes}
use infra_shelf.Common.Text.{codes, is_empty, str_eq, has_prefix, split, join}

-- `..` takes the name before it away; above the root there is nothing to take.
abbrev up : Bool → List Bytes → List Bytes
up true [] = []
up false [] = codes ".." ∷ []
up rooted (n ∷ ns) = if str_eq n (codes "..") then codes ".." ∷ n ∷ ns else ns

-- The names of a clean path, from the last one.
pub clean_names : Bool → List Bytes → List Bytes → List Bytes
clean_names rooted names [] = names
clean_names rooted names (n ∷ rest) =
    clean_names rooted
      (if is_empty n || str_eq n (codes ".")
        then names
        else if str_eq n (codes "..")
        then up rooted names
        else n ∷ names)
      rest

abbrev pub render : Bool → List Bytes → Bytes
render true names = b'/' ∷ join (reverse names) (codes "/")
render false [] = codes "."
render false (n ∷ ns) = join (reverse (n ∷ ns)) (codes "/")

-- `filepath.Clean`
unfoldable pub clean : Bytes → Bytes
unfolding clean_names
clean path =
    let rooted = has_prefix path (codes "/") in
    render rooted (clean_names rooted [] (split path b'/'))

abbrev join_clean : List Bytes → Bytes
join_clean [] = []
join_clean (p ∷ ps) = clean (join (p ∷ ps) (codes "/"))

-- `filepath.Join`: empty elements are ignored.
unfoldable pub join_path : List Bytes → Bytes
join_path parts = join_clean (filter (λ p. not (is_empty p)) parts)
