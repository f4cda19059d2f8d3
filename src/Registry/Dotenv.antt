-- ===== src/Registry/Dotenv.antt =====
-- `parseDotenv` of internal/registry/registry.go; `loadDotenv` of internal/config/config.go has the
-- same loop.
pub mod Lines
use infra_shelf.Common.{
  ℕ, Bytes, Bool, true, false, ◌&&◌, ◌||◌, List, [], ◌∷◌, Option, none, some, ◌≤◌, length, leb,
  take, drop, ◌-◌, if◌then◌else◌,
}
use infra_shelf.Common.Text.{codes, trim_space, is_empty, has_prefix, has_suffix, cut, split}
use infra_shelf.Common.Dict.{Dict, insert}

-- `value[1 : len(value)-1]`
abbrev inner : Bytes → Bytes
inner value = take (length value - 1 - 1) (drop 1 value)

quoted_by : ℕ → Bytes → Bool
quoted_by q value = has_prefix value (q ∷ []) && has_suffix value (q ∷ [])

pub unquote : Bytes → Bytes
unfolding quoted_by
unquote value =
    if leb 2 (length value)
    then (if quoted_by b'"' value || quoted_by b'\'' value then inner value else value)
    else value

-- One round of the loop, over the map so far.
pub parse_line : Bytes → Dict Bytes → Dict Bytes
parse_line raw_line env =
    let line = trim_space raw_line in
    if is_empty line || has_prefix line (b'#' ∷ []) then env else elim (cut line b'=') [
      | none ↦ env
      | some (key, value) ↦ insert (trim_space key) (unquote (trim_space value)) env
    ]

parse_lines : List Bytes → Dict Bytes → Dict Bytes
parse_lines [] env = env
parse_lines (line ∷ lines) env = parse_lines lines (parse_line line env)

pub parse_dotenv : Bytes → Dict Bytes
parse_dotenv content = parse_lines (split content b'\n') []
