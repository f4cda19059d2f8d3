-- ===== src/Envspec.antt =====
-- internal/envspec/envspec.go: the --env and --envs flags, and the apps that a command touches.
pub mod Laws
pub mod Targets
use infra_shelf.Common.{
  ℕ, Bytes, Bool, true, false, List, [], ◌∷◌, ◌++◌, map, Option, none, some, Result, ok, err,
  no_env_names, invalid_env_name, duplicate_envs, ◌>>=◌, ◌>>◌, if◌then◌else◌,
}
use infra_shelf.Common.Text.{codes, elem, trim_space, is_empty, split}
use infra_shelf.Common.Dict.{lookup}
use infra_shelf.Registry.{AppEntry, Registry}
use infra_shelf.Registry.Names.{app_name_pattern}

-- `envNamePattern` is the pattern of app names.
abbrev pub env_name_pattern : Bytes → Bool
env_name_pattern = app_name_pattern

-- The first loop of `ParseEnvs`: the parts, trimmed, blank ones left out.
pub trimmed_parts : List Bytes → List Bytes
trimmed_parts [] = []
trimmed_parts (raw ∷ rest) =
    let p = trim_space raw in let more = trimmed_parts rest in if is_empty p then more else p ∷ more

-- The second loop; `all` is the whole of `parts`, for the message, and `seen` what came before.
pub check_envs : List Bytes → List Bytes → List Bytes → Result (Unit {0})
check_envs all seen [] = ok tt
check_envs all seen (env ∷ rest) =
    let next = check_envs all (seen ++ env ∷ []) rest in
    if env_name_pattern env
    then (if elem env seen then err (duplicate_envs all) else next)
    else err (invalid_env_name env)

pub accept_parts : List Bytes → Result (List Bytes)
unfolding check_envs
accept_parts [] = err no_env_names
accept_parts (p ∷ ps) = do check_envs (p ∷ ps) [] (p ∷ ps); ok (p ∷ ps)

-- No flag gives `nil`, which is the empty list here.
pub parse_envs : Bytes → Result (List Bytes)
parse_envs [] = ok []
parse_envs (c ∷ s) = accept_parts (trimmed_parts (split (c ∷ s) b','))

pub parse_single_env : Bytes → Result Bytes
parse_single_env raw =
    let env = trim_space raw in
    if is_empty env
    then ok []
    else if env_name_pattern env
    then ok env
    else err (invalid_env_name env)

pub record Target : Type 0 where
  pub name : Bytes
  pub signoz_service_name : Bytes
  pub signoz_env : Bytes

pub record Options : Type 0 where
  pub envs : List Bytes
  pub env : Bytes

-- `fmt.Sprintf("%s-%s", appName, env)`
abbrev pub sibling_name : Bytes → Bytes → Bytes
sibling_name app_name env = app_name ++ b'-' ∷ env

sibling : Bytes → Bytes → Target
sibling app_name env = record {
  name = sibling_name app_name env;
  signoz_service_name = app_name;
  signoz_env = env;
}

unfoldable pub siblings : Bytes → List Bytes → List Target
unfolding sibling
siblings app_name [] = []
siblings app_name (env ∷ envs) = sibling app_name env ∷ siblings app_name envs

unfoldable pub setup_targets : Bytes → List Bytes → Bytes → List Target
setup_targets app_name (e ∷ es) env = siblings app_name (e ∷ es)
setup_targets app_name [] env =
    record { name = app_name; signoz_service_name = app_name; signoz_env = env } ∷ []

pub build_setup_targets : Bytes → Options → List Target
unfolding setup_targets
build_setup_targets app_name opts = setup_targets app_name opts.envs opts.env

-- The names that `shelf add` takes from the entry of the registry, if there is one.
known_target : Bytes → Bytes → Option AppEntry → Target
known_target app_name env none = record {
  name = app_name;
  signoz_service_name = app_name;
  signoz_env = env;
}
known_target app_name env (some entry) = record {
  name = app_name;
  signoz_service_name =
      if is_empty entry.signoz_service_name then app_name else entry.signoz_service_name;
  signoz_env = if is_empty env then entry.environment else env;
}

add_targets : Bytes → List Bytes → Bytes → Registry → List Target
add_targets app_name (e ∷ es) env reg = siblings app_name (e ∷ es)
add_targets app_name [] env reg = known_target app_name env (lookup app_name reg.apps) ∷ []

unfoldable pub build_add_targets : Bytes → Options → Registry → List Target
unfolding add_targets known_target siblings
build_add_targets app_name opts reg = add_targets app_name opts.envs opts.env reg
