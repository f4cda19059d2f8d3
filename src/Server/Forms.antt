-- ===== src/Server/Forms.antt =====
-- internal/web/server/server.go and internal/web/auth/basic.go: what is read from a request and
-- shown of a value.
pub mod Numbers
pub mod Access
use infra_shelf.Common.{
  ℕ, Bytes, Bool, true, false, ◌&&◌, ◌||◌, not, List, [], ◌∷◌, ◌++◌, Option, none, some, is_some,
  Result, ok, err, Error, length, take, leb, ltb, ◌==◌, ◌+◌, ◌*◌, ◌-◌, ◌^◌, if◌then◌else◌, ◌>>=◌,
}
use infra_shelf.Common.Text.{codes, is_empty, str_eq, trim_space, join, cut}
use infra_shelf.Registry.Names.{is_digit}
use infra_shelf.Backups.{File}
use infra_shelf.Envspec.{Options, parse_single_env, parse_envs}
use infra_shelf.BackupService.{decimal}
use infra_shelf.Scheduler.Manager.{brief_output}

-- The number that digits write, from the first one.
pub digits_value : ℕ → Bytes → Option ℕ
digits_value n [] = some n
digits_value n (c ∷ s) =
    let more = digits_value (n * 10 + (c - b'0')) s in if is_digit c then more else none

-- `strconv.Atoi` of a number without its sign: some digits, and below 2^63.
abbrev in_range : Option ℕ → Option ℕ
in_range none = none
in_range (some n) = if ltb n (2 ^ 63) then some n else none

unsigned : Bytes → Option ℕ
unfolding digits_value
unsigned [] = none
unsigned (c ∷ s) = in_range (digits_value 0 (c ∷ s))

abbrev or_fallback : ℕ → Option ℕ → ℕ
or_fallback fallback none = fallback
or_fallback fallback (some n) = n

-- A negative number is no value; `-0` is 0.
abbrev unless_negative : ℕ → Option ℕ → ℕ
unless_negative fallback none = fallback
unless_negative fallback (some n) = if n == 0 then 0 else fallback

unfoldable pub signed : ℕ → Bytes → ℕ
unfolding unsigned
signed fallback [] = fallback
signed fallback (c ∷ s) =
    if c == b'-'
    then unless_negative fallback (unsigned s)
    else if c == b'+'
    then or_fallback fallback (unsigned s)
    else or_fallback fallback (unsigned (c ∷ s))

unfoldable pub parse_non_negative_int : Bytes → ℕ → ℕ
unfolding signed
parse_non_negative_int value fallback = signed fallback (trim_space value)

pub with_output : (Error → Bytes) → Error → Bytes → Bytes
with_output message e output =
    let trimmed = trim_space output in
    if is_empty trimmed then message e else message e ++ (codes ": " ++ brief_output trimmed)

pub first_backups : List File → ℕ → List File
first_backups files limit = if leb (length files) limit then files else take limit files

pub status_class : Bytes → Bytes
status_class status =
    if str_eq status (codes "running")
    then codes "running"
    else if str_eq status (codes "exited") || str_eq status (codes "dead")
    then codes "stopped"
    else if is_empty status
    then codes "missing"
    else codes "warning"

-- Days and counts that are not positive are 0.
pub display_retention : ℕ → ℕ → Bytes
display_retention days count =
    if ltb 0 days
    then (if ltb 0 count
        then decimal days ++ (codes "d / " ++ (decimal count ++ codes " files"))
        else decimal days ++ codes "d")
    else if ltb 0 count
    then decimal count ++ codes " files"
    else codes "keep forever"

-- `safeRedirectTarget`, of the path and the query that url.Parse reads in the referer.
abbrev redirect_target : Option (Bytes × Bytes) → Bytes
redirect_target none = codes "/"
redirect_target (some ([], query)) = codes "/"
redirect_target (some (c ∷ path, query)) =
    if not (c == b'/')
    then codes "/"
    else if is_empty query
    then c ∷ path
    else c ∷ (path ++ b'?' ∷ query)

pub safe_redirect_target : (Bytes → Option (Bytes × Bytes)) → Bytes → Bytes
safe_redirect_target parse_url referer =
    if is_empty referer then codes "/" else redirect_target (parse_url referer)

-- `same`
pub same : Bytes → Bytes → Bool
same a b = if not (length a == length b) then false else str_eq a b

pub data Answer : Type 0 where
  unauthorized served : Answer

abbrev credentials_match : Bytes → Bytes → Option (Bytes × Bytes) → Bool
credentials_match username password none = false
credentials_match username password (some (user, pass)) =
    not (not (same user username) || not (same pass password))

-- `Basic`, over the path of a request and the credentials that it carries.
pub basic : Bytes → Bytes → Bytes → Option (Bytes × Bytes) → Answer
unfolding same
basic username password path sent =
    if str_eq path (codes "/logout")
    then served
    else if credentials_match username password sent
    then served
    else unauthorized

-- A text without a comma is one environment, or none.
abbrev single_env : Bytes → Result Options
single_env env =
    if is_empty env
    then ok (record { envs = []; env = [] })
    else ok (record { envs = []; env = env })

abbrev many_envs : List Bytes → Result Options
many_envs envs = ok (record { envs = envs; env = [] })

pub parse_envs_field : Bytes → Result Options
parse_envs_field raw =
    let trimmed = trim_space raw in
    if is_empty trimmed
    then ok (record { envs = []; env = [] })
    else if not (is_some (cut trimmed b','))
    then parse_single_env trimmed >>= single_env
    else parse_envs trimmed >>= many_envs
