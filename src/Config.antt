-- ===== src/Config.antt =====
-- internal/config/config.go.
pub mod Root
use mathlib.Core.List.{reverse}
use infra_shelf.Common.{
  ℕ, Bytes, Bool, true, false, ◌&&◌, ◌||◌, not, List, [], ◌∷◌, ◌++◌, map, Option, none, some,
  Result, ok, err, Error, root_not_found, leb, ◌==◌, ◌+◌, if◌then◌else◌, ◌>>=◌, ◌>>◌,
}
use infra_shelf.Common.Text.{codes, is_empty, str_eq, has_prefix, trim_space, split}
use infra_shelf.Common.Dict.{Dict, lookup, value_of}
use infra_shelf.Common.Paths.{clean, clean_names, render, join_path}
use infra_shelf.Registry.Dotenv.{parse_dotenv}

-- The environment of the process, its directory, the files, and which paths there are.
pub record Host : Type 0 where
  pub environment : Dict Bytes
  pub working_directory : Result Bytes
  pub read_file : Bytes → Result Bytes
  pub exists : Bytes → Bool

pub record S3Config : Type 0 where
  pub bucket : Bytes
  pub region : Bytes
  pub prefix : Bytes
  pub endpoint : Bytes
  pub force_path_style : Bool
  pub access_key_id : Bytes
  pub secret_access_key : Bytes
  pub session_token : Bytes

pub record Config : Type 0 where
  pub addr : Bytes
  pub username : Bytes
  pub password : Bytes
  pub using_default_password : Bool
  pub root_dir : Bytes
  pub registry_path : Bytes
  pub backups_dir : Bytes
  pub database_path : Bytes
  pub timezone : Bytes
  pub s3 : S3Config

-- `strings.Trim(s, "/")`
trim_left_slash : Bytes → Bytes
trim_left_slash [] = []
trim_left_slash (c ∷ s) = if c == b'/' then trim_left_slash s else c ∷ s

pub trim_slash : Bytes → Bytes
unfolding trim_left_slash
trim_slash s = reverse (trim_left_slash (reverse (trim_left_slash s)))

to_lower : Bytes → Bytes
to_lower s = map (λ c. if leb b'A' c && leb c b'Z' then c + 32 else c) s

module _ (host : Host) where
  pub getenv : Dict Bytes → Bytes → Bytes → Bytes
  getenv env key fallback =
      let set = value_of (lookup key host.environment) in
      let written = value_of (lookup key env) in
      if not (is_empty set) then set else if not (is_empty written) then written else fallback

  pub getenv_bool : Dict Bytes → Bytes → Bool → Bool
  unfolding getenv to_lower
  getenv_bool env key fallback =
      let value = to_lower (trim_space (getenv env key [])) in
      if is_empty value
      then fallback
      else str_eq value (codes "1")
        || str_eq value (codes "true")
        || str_eq value (codes "yes")
        || str_eq value (codes "on")

  abbrev dotenv_of : Result Bytes → Dict Bytes
  dotenv_of (err e) = []
  dotenv_of (ok content) = parse_dotenv content

  -- `loadDotenv`: its loop is that of `parseDotenv`.
  pub load_dotenv : Bytes → Dict Bytes
  load_dotenv path = dotenv_of (host.read_file path)

  pub default_registry_path : Bytes → Bytes
  default_registry_path root =
      let legacy =
        join_path (root ∷ codes "packages" ∷ codes "cli" ∷ codes "src" ∷ codes "apps.json" ∷ []) in
      if host.exists legacy
      then legacy
      else join_path (root ∷ codes "data" ∷ codes "apps.json" ∷ [])

  -- `filepath.Abs`
  pub absolute : Bytes → Result Bytes
  absolute path =
      if has_prefix path (codes "/")
      then ok (clean path)
      else do wd ← host.working_directory; ok (join_path (wd ∷ path ∷ []))

  abbrev pub is_root : Bytes → Bool
  is_root dir =
      host.exists (join_path (dir ∷ codes "docker-compose.yml" ∷ []))
      && host.exists (join_path (dir ∷ codes "go.mod" ∷ []))

  -- The loop over a directory and those above it. `filepath.Dir` of a clean absolute path takes
  -- the last of its names away.
  pub find_root : List Bytes → Result Bytes
  find_root [] = if is_root (render true []) then ok (render true []) else err root_not_found
  find_root (n ∷ ns) =
      let above = find_root ns in
      if is_root (render true (n ∷ ns)) then ok (render true (n ∷ ns)) else above

  pub resolve_root : Result Bytes
  unfolding absolute find_root
  resolve_root =
      let root = value_of (lookup (codes "INFRA_SHELF_ROOT") host.environment) in
      if not (is_empty root) then absolute root else do
        wd ← host.working_directory
        dir ← absolute wd
        find_root (clean_names true [] (split dir b'/'))

  abbrev s3_config : Dict Bytes → S3Config
  s3_config env =
      let region = getenv env (codes "AWS_REGION") (codes "us-east-1") in
      let prefix = getenv env (codes "BACKUP_S3_PREFIX") (codes "infra-shelf/backups") in
      record {
        bucket = getenv env (codes "BACKUP_S3_BUCKET") [];
        region = getenv env (codes "BACKUP_S3_REGION") region;
        prefix = trim_slash prefix;
        endpoint = getenv env (codes "BACKUP_S3_ENDPOINT") [];
        force_path_style = getenv_bool env (codes "BACKUP_S3_FORCE_PATH_STYLE") false;
        access_key_id = getenv env (codes "AWS_ACCESS_KEY_ID") [];
        secret_access_key = getenv env (codes "AWS_SECRET_ACCESS_KEY") [];
        session_token = getenv env (codes "AWS_SESSION_TOKEN") [];
      }

  abbrev config_at : Bytes → Dict Bytes → Config
  config_at root env =
      let username = getenv env (codes "APP_USERNAME") (codes "admin") in
      let password = getenv env (codes "APP_PASSWORD") (codes "admin") in
      let backups = join_path (root ∷ codes "backups" ∷ []) in
      let database =
        join_path (root ∷ codes "data" ∷ codes "app" ∷ codes "infra-shelf-app.db" ∷ []) in
      record {
        addr = getenv env (codes "APP_ADDR") (codes "127.0.0.1:8080");
        username = username;
        password = password;
        using_default_password = str_eq username (codes "admin") && str_eq password (codes "admin");
        root_dir = root;
        registry_path = getenv env (codes "INFRA_SHELF_REGISTRY_PATH") (default_registry_path root);
        backups_dir = getenv env (codes "INFRA_SHELF_BACKUPS_DIR") backups;
        database_path = getenv env (codes "APP_DATABASE_PATH") database;
        timezone = getenv env (codes "APP_TIMEZONE") (codes "America/Sao_Paulo");
        s3 = s3_config env;
      }

  -- `Load`
  pub load_config : Result Config
  unfolding resolve_root load_dotenv
  load_config = do
    root ← resolve_root
    ok (config_at root (load_dotenv (join_path (root ∷ codes ".env" ∷ []))))
