-- ===== src/Registry/Names.antt =====
-- internal/registry/registry.go: `ValidateAppName` and `ParseServices`.
pub mod Laws
use infra_shelf.Common.{
  ℕ, Bytes, Bool, true, false, ◌&&◌, ◌||◌, List, [], ◌∷◌, ◌++◌, Option, none, some, Result, ok, err,
  invalid_app_name, invalid_service, ◌>>=◌, leb, ◌==◌, all, if◌then◌else◌,
}
use infra_shelf.Common.Text.{elem, trim_space, is_empty}
use infra_shelf.Registry.{ServiceName, valid_services}

abbrev pub is_lower : ℕ → Bool
is_lower c = leb b'a' c && leb c b'z'

abbrev pub is_digit : ℕ → Bool
is_digit c = leb b'0' c && leb c b'9'

-- The class `[a-z0-9-]`.
abbrev pub is_name_char : ℕ → Bool
is_name_char c = is_lower c || is_digit c || c == b'-'

-- The pattern `^[a-z][a-z0-9-]*$`, the same in three packages.
unfoldable pub app_name_pattern : Bytes → Bool
app_name_pattern [] = false
app_name_pattern (c ∷ s) = is_lower c && all is_name_char s

unfoldable pub validate_app_name : Bytes → Result (Unit {0})
validate_app_name name = if app_name_pattern name then ok tt else err (invalid_app_name name)

-- The loop of `ParseServices`; `services` holds what `seen` holds.
unfoldable pub parse_services_loop : List Bytes → List Bytes → Result (List Bytes)
parse_services_loop [] services = ok services
parse_services_loop (raw ∷ values) services =
    let value = trim_space raw in
    let skip = parse_services_loop values services in
    let take = parse_services_loop values (services ++ value ∷ []) in
    if is_empty value then skip else elim (valid_services value) [
      | none ↦ err (invalid_service value)
      | some _ ↦ if elem value services then skip else take
    ]

unfoldable pub parse_services : List Bytes → Result (List Bytes)
parse_services values = parse_services_loop values []
