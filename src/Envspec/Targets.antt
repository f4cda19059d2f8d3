-- ===== src/Envspec/Targets.antt =====
-- The apps that --envs names: their names are valid, and no two are alike.
use infra_shelf.Common.Dict.{lookup}
use infra_shelf.Common.{
  if◌then◌else◌, some, ℕ, Bytes, true, List, [], ◌∷◌, ◌++◌, ◌≡◌, refl, arith, All, all, ◌∙◌,
}
use infra_shelf.Registry.{Registry, AppEntry}
use infra_shelf.Common.Text.{is_empty, elem, str_eq}
use infra_shelf.Common.Text.Elem.{IsDistinct}
use infra_shelf.Registry.Names.{app_name_pattern, is_name_char, is_lower}
use infra_shelf.Envspec.{
  build_add_targets, add_targets, known_target, Target, Options, sibling_name, siblings,
  setup_targets, build_setup_targets,
}
use infra_shelf.Envspec.Laws.{IsEnvName}

abbrev pub target_names : List Target → List Bytes
target_names [] = []
target_names (t ∷ ts) = t.name ∷ target_names ts

all-append :
    (s t : Bytes)
    → all is_name_char s ≡ true
    → all is_name_char t ≡ true
    → all is_name_char (s ++ t) ≡ true
all-append [] t hs ht = ht
all-append (c ∷ s) t hs ht = ground (arith, all-append s t)

lower_name_char : (c : ℕ) → is_lower c ≡ true → is_name_char c ≡ true
lower_name_char c h = ground arith

name_chars : (s : Bytes) → app_name_pattern s ≡ true → all is_name_char s ≡ true
unfolding app_name_pattern
name_chars [] h = refl
name_chars (c ∷ s) h = ground (arith, lower_name_char c)

-- The name of a sibling of a valid name and a valid environment is valid.
pub sibling_name_valid :
    (app env : Bytes)
    → app_name_pattern app ≡ true
    → IsEnvName env
    → app_name_pattern (sibling_name app env) ≡ true
unfolding app_name_pattern
sibling_name_valid [] env ha he = absurd (ground arith)
sibling_name_valid (c ∷ s) env ha he = ground (arith, all-append s (b'-' ∷ env), name_chars env he)

str_eq-append : (x a b : Bytes) → str_eq (x ++ a) (x ++ b) ≡ str_eq a b
unfolding str_eq
str_eq-append [] a b = refl
str_eq-append (c ∷ x) a b = ground (arith, str_eq-append x a b)

sibling_name_inj : (app a b : Bytes) → str_eq (sibling_name app a) (sibling_name app b) ≡ str_eq a b
sibling_name_inj app a b = str_eq-append app (b'-' ∷ a) (b'-' ∷ b) ∙ str_eq-append (b'-' ∷ []) a b

siblings_valid :
    (app : Bytes) (envs : List Bytes)
    → app_name_pattern app ≡ true
    → All IsEnvName envs
    → All (λ n. app_name_pattern n ≡ true) (target_names (siblings app envs))
unfolding siblings
siblings_valid app [] ha h = tt
siblings_valid app (env ∷ envs) ha (he, h) =
    (sibling_name_valid app env ha he, siblings_valid app envs ha h)

elem-siblings :
    (app env : Bytes) (envs : List Bytes)
    → elem (sibling_name app env) (target_names (siblings app envs)) ≡ elem env envs
unfolding elem siblings
elem-siblings app env [] = refl
elem-siblings app env (e ∷ envs) =
    ground (arith, sibling_name_inj app e env, elem-siblings app env envs)

siblings-IsDistinct :
    (app : Bytes) (envs : List Bytes)
    → IsDistinct envs
    → IsDistinct (target_names (siblings app envs))
unfolding siblings
siblings-IsDistinct app [] h = tt
siblings-IsDistinct app (e ∷ envs) (he, h) =
    (rw (elem-siblings app e envs) he, siblings-IsDistinct app envs h)

-- The names of the targets of a setup.
abbrev pub setup_names : Bytes → Options → List Bytes
setup_names app opts = target_names (build_setup_targets app opts)

setup_targets_valid :
    (app : Bytes) (envs : List Bytes) (env : Bytes)
    → app_name_pattern app ≡ true
    → All IsEnvName envs
    → IsDistinct envs
    → All (λ n. app_name_pattern n ≡ true) (target_names (setup_targets app envs env))
      × IsDistinct (target_names (setup_targets app envs env))
unfolding setup_targets
setup_targets_valid app [] env ha h d = unfold elem in ((ha, tt), (refl, tt))
setup_targets_valid app (e ∷ es) env ha h d =
    (siblings_valid app (e ∷ es) ha h, siblings-IsDistinct app (e ∷ es) d)

-- The targets of a setup of a valid name, over distinct valid environments or over none, have
-- valid names, and no two of them the same name.
pub build_setup_targets_valid :
    (app : Bytes) (opts : Options)
    → app_name_pattern app ≡ true
    → All IsEnvName opts.envs
    → IsDistinct opts.envs
    → All (λ n. app_name_pattern n ≡ true) (setup_names app opts)
      × IsDistinct (setup_names app opts)
unfolding build_setup_targets
build_setup_targets_valid app opts = setup_targets_valid app opts.envs opts.env

-- Without flags the target is the app, with the names that its entry has for SignOz.
pub build_add_targets-found :
    (app : Bytes) (reg : Registry) (entry : AppEntry)
    → lookup app reg.apps ≡ some entry
    → build_add_targets app (record { envs = []; env = [] }) reg
      ≡ record {
        name = app;
        signoz_service_name =
            if is_empty entry.signoz_service_name then app else entry.signoz_service_name;
        signoz_env = entry.environment;
      }
        ∷ []
unfolding build_add_targets add_targets known_target
build_add_targets-found app reg entry found = rw found refl
