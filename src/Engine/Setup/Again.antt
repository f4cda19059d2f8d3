-- ===== src/Engine/Setup/Again.antt =====
-- What `AddServices` works on for an app that `SetupApp` made.
use infra_shelf.Common.{
  Bytes, false, [], ◌∷◌, some, ◌≡◌, refl, sym, ◌∙◌, if◌then◌else◌, Bool-cases, inl, inr,
}
use infra_shelf.Common.Text.{is_empty, str_eq, str_eq_iff}
use infra_shelf.Common.Dict.{lookup}
use infra_shelf.Registry.{Registry, Services}
use infra_shelf.Envspec.{Target, build_add_targets}
use infra_shelf.Envspec.Targets.{build_add_targets-found}
use infra_shelf.Engine.Setup.{new_entry}

service_name_again :
    (service name : Bytes)
    → is_empty service ≡ false
    → (let kept = if str_eq service name then [] else service in
        if is_empty kept then name else kept)
      ≡ service
service_name_again service name h = elim (Bool-cases (str_eq service name)) [
  | inl same ↦ rw same (sym ((str_eq_iff service name).0 same))
  | inr other ↦ rw (other, h) refl
]

-- Where the registry has, for a target whose SignOz name is not empty, the entry that `SetupApp`
-- makes for it, `shelf add` without --env and --envs works on exactly that target: its name, its
-- SignOz name and its environment, whatever services the entry has.
pub build_add_targets-new_entry :
    (t : Target) (created_at : Bytes) (services : Services) (reg : Registry)
    → is_empty t.signoz_service_name ≡ false
    → lookup t.name reg.apps ≡ some (new_entry created_at t services)
    → build_add_targets t.name (record { envs = []; env = [] }) reg ≡ t ∷ []
build_add_targets-new_entry t created_at services reg some_name found =
    build_add_targets-found t.name reg (new_entry created_at t services) found
    ∙ rw (service_name_again t.signoz_service_name t.name some_name) refl
