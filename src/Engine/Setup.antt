-- ===== src/Engine/Setup.antt =====
-- internal/shelfcore/setup.go
pub mod Again
pub mod Outcome
pub mod Saved
use infra_shelf.Common.{
  Bytes, Bool, true, false, List, [], ◌∷◌, ◌++◌, Option, none, some, Result, ok, err, Error,
  no_services, app_already_exists, wrapped, ◌>>=◌, ◌>>◌, if◌then◌else◌,
}
use infra_shelf.Common.Text.{codes, str_eq}
use infra_shelf.Common.Dict.{Dict, lookup, insert}
use infra_shelf.Registry.{AppEntry, Registry, Services, empty_services}
use infra_shelf.Registry.Names.{validate_app_name, parse_services}
use infra_shelf.Registry.Storage.{Storage}
use infra_shelf.Envspec.{Target, Options, build_setup_targets}
use infra_shelf.Machine.{Host, Machine}
use infra_shelf.Engine.{ProvisionOptions, World, container_check}
use infra_shelf.Engine.Provision.{TargetResult, Progress, provision_all}
use infra_shelf.Engine.Targets.{
  TargetResults, new_progress, result_of, put_entry, save_registry, stop_or,
}

pub record SetupOptions : Type 0 where
  pub services : List Bytes
  pub envs : List Bytes
  pub env : Bytes
  pub full_access : Bool

abbrev pub some_services : List Bytes → Result (Unit {0})
some_services [] = err no_services
some_services (s ∷ ss) = ok tt

expanded : Result (Unit {0}) → Result (Unit {0})
expanded (err e) = err (wrapped (codes "invalid expanded app name") e)
expanded (ok u) = ok u

-- No target has an invalid name or is an app that is there.
unfoldable pub check_new : List Target → Registry → Result (Unit {0})
unfolding expanded
check_new [] reg = ok tt
check_new (t ∷ ts) reg = do
  expanded (validate_app_name t.name)
  elim (lookup t.name reg.apps) [
    | some _ ↦ err (app_already_exists t.name)
    | none ↦ check_new ts reg
  ]

-- The entry of a new app, before its services: the name for SignOz is kept where it is another.
abbrev pub new_entry : Bytes → Target → Services → AppEntry
new_entry created_at t services = record {
  created_at = created_at;
  environment = t.signoz_env;
  signoz_service_name = if str_eq t.signoz_service_name t.name then [] else t.signoz_service_name;
  services = services;
}

module _ {st : Storage} (h : Host) where
  setup_progress : SetupOptions → Target → World st → Progress × World st
  setup_progress opts t w =
      provision_all h t.name
        (record {
          full_access = opts.full_access;
          signoz_service_name = t.signoz_service_name;
          signoz_environment = t.signoz_env;
        })
        opts.services (new_progress empty_services) w

  -- One target: what it gets, and the world when its services have been provisioned.
  setup_one : SetupOptions → Target → World st → TargetResult × World st
  unfolding setup_progress
  setup_one opts t w =
      let (p, w') = setup_progress opts t w in
      (result_of t.name (new_entry (h.created_at w.machine.calls) t p.services) p, w')

  -- The registry goes to the store after every target.
  pub setup_loop :
      SetupOptions
      → List Target
      → Registry
      → List TargetResult
      → World st
      → TargetResults × World st
  setup_loop opts [] reg results w = (record { results = results; error = none }, w)
  setup_loop opts (t ∷ ts) reg results w =
      let (r, w') = setup_one opts t w in
      let reg' = put_entry r reg in
      let (saved, w'') = save_registry reg' w' in
      let rest = setup_loop opts ts reg' (results ++ r ∷ []) w'' in stop_or saved results w'' rest

  -- What is checked before anything is changed.
  pub setup_checks : Bytes → SetupOptions → World st → Result Registry
  setup_checks app_name opts w = do
    validate_app_name app_name
    some_services opts.services
    parse_services opts.services
    reg ← st.load w.storage
    check_new (build_setup_targets app_name (record { envs = opts.envs; env = opts.env })) reg
    container_check h opts.services w.machine
    ok reg

  setup_checked : Bytes → SetupOptions → Result Registry → World st → TargetResults × World st
  setup_checked app_name opts (err e) w = (record { results = []; error = some e }, w)
  setup_checked app_name opts (ok reg) w =
      setup_loop opts (build_setup_targets app_name (record { envs = opts.envs; env = opts.env }))
        reg [] w

  pub setup_app : Bytes → SetupOptions → World st → TargetResults × World st
  unfolding setup_checked
  setup_app app_name opts w = setup_checked app_name opts (setup_checks app_name opts w) w
