-- ===== src/Services/Credentials.antt =====
-- The root credentials of the containers: `readKey`, `getRootCreds` and `adminPassword`, of which
-- the packages aistor, mongodb and redis have copies of their own.
use infra_shelf.Common.{
  Bytes, ◌&&◌, List, [], ◌∷◌, ◌++◌, Option, none, some, length, drop, not, Result, ok, err,
  secret_required, if◌then◌else◌,
}
use infra_shelf.Common.Text.{codes, trim_space, is_empty, has_prefix, split}
use infra_shelf.Registry.Dotenv.{unquote}
use infra_shelf.Registry.Store.{get_or_empty}
use infra_shelf.Machine.{Host}

-- `strings.HasPrefix(line, prefix)`, and the value behind the prefix.
read_key_lines : Bytes → List Bytes → Bytes
read_key_lines prefix [] = []
read_key_lines prefix (raw ∷ lines) =
    let line = trim_space raw in
    let rest = read_key_lines prefix lines in
    if has_prefix line prefix then unquote (trim_space (drop (length prefix) line)) else rest

unfoldable pub read_key : Bytes → Bytes → Bytes
unfolding read_key_lines
read_key content key = read_key_lines (key ++ codes "=") (split content b'\n')

pub record RootCreds : Type 0 where
  pub user : Bytes
  pub pass : Bytes

-- Both are there.
complete : Bytes → Bytes → Option RootCreds
complete user pass =
    if not (is_empty user) && not (is_empty pass)
    then some (record { user = user; pass = pass })
    else none

creds_in_files : Bytes → Bytes → List Bytes → Option RootCreds
creds_in_files user_key pass_key [] = none
creds_in_files user_key pass_key (content ∷ rest) =
    let later = creds_in_files user_key pass_key rest in
    elim (complete (read_key content user_key) (read_key content pass_key)) [
      | some creds ↦ some creds
      | none ↦ later
    ]

-- The .env files come first, then the environment.
unfoldable pub get_root_creds : Bytes → Bytes → Host → Result RootCreds
unfolding creds_in_files complete
get_root_creds user_key pass_key h = elim (creds_in_files user_key pass_key h.dotenv_files) [
  | some creds ↦ ok creds
  | none ↦
      elim (complete (trim_space (get_or_empty user_key h.env))
        (trim_space (get_or_empty pass_key h.env))) [
          | some creds ↦ ok creds
          | none ↦ err secret_required
        ]
]

first_key : Bytes → List Bytes → Bytes
first_key key [] = []
first_key key (content ∷ rest) =
    let later = first_key key rest in
    let v = read_key content key in if is_empty v then later else v

-- Of redis: the environment comes first.
unfoldable pub admin_password : Host → Bytes
unfolding first_key
admin_password h =
    let v = trim_space (get_or_empty (codes "REDIS_PASSWORD") h.env) in
    if is_empty v then first_key (codes "REDIS_PASSWORD") h.dotenv_files else v
