-- ===== src/Engine/Add.antt =====
-- internal/shelfcore/add.go
pub mod Keeps
use infra_shelf.Common.{
  Bytes, Bool, true, false, List, [], ◌∷◌, ◌++◌, Option, none, some, Result, ok, err, Error,
  app_not_found, ◌>>=◌, ◌>>◌, if◌then◌else◌,
}
use infra_shelf.Common.Dict.{lookup}
use infra_shelf.Registry.{AppEntry, Registry, Services}
use infra_shelf.Registry.Names.{validate_app_name, parse_services}
use infra_shelf.Registry.Storage.{Storage}
use infra_shelf.Envspec.{Target, build_add_targets}
use infra_shelf.Machine.{Host}
use infra_shelf.Engine.{
  ProvisionOptions, World, container_check, has_service, tell, already_provisioned, nothing_to_do,
}
use infra_shelf.Engine.Provision.{TargetResult, Progress, provision_all}
use infra_shelf.Engine.Targets.{
  TargetResults, new_progress, result_of, put_entry, save_registry, stop_or,
}
use infra_shelf.Engine.Setup.{some_services}

pub record AddOptions : Type 0 where
  pub services : List Bytes
  pub envs : List Bytes
  pub env : Bytes

-- Every target is an app that is there.
unfoldable pub check_known : List Target → Registry → Result (Unit {0})
check_known [] reg = ok tt
check_known (t ∷ ts) reg = elim (lookup t.name reg.apps) [
  | none ↦ err (app_not_found t.name)
  | some _ ↦ check_known ts reg
]

module _ {st : Storage} where
  -- The first inner loop: the services that the entry does not have, with a warning for the others.
  to_provision : Bytes → AppEntry → List Bytes → World st → List Bytes × World st
  to_provision name entry [] w = ([], w)
  to_provision name entry (svc ∷ rest) w =
      let (later, w') = to_provision name entry rest (tell (already_provisioned name svc) w) in
      let (more, w'') = to_provision name entry rest w in
      if has_service entry svc then (later, w') else (svc ∷ more, w'')

add_targets_of : Bytes → AddOptions → Registry → List Target
add_targets_of app_name opts reg =
    build_add_targets app_name (record { envs = opts.envs; env = opts.env }) reg

module _ {st : Storage} (h : Host) where
  add_progress : Target → AppEntry → List Bytes → World st → Progress × World st
  add_progress t entry svcs w =
      provision_all h t.name
        (record {
          full_access = false;
          signoz_service_name = t.signoz_service_name;
          signoz_environment = t.signoz_env;
        })
        svcs (new_progress entry.services) w

  -- A target with services to provision: its result, and the world before the save.
  add_one : Target → AppEntry → List Bytes → World st → TargetResult × World st
  unfolding add_progress
  add_one t entry svcs w =
      let (p, w') = add_progress t entry svcs w in
      (result_of t.name (record entry { services = p.services }) p, w')

  -- The rest of the round when the services to provision are known; `next` is the rest of the loop.
  add_fresh :
      Target
      → AppEntry
      → List Bytes
      → Registry
      → List TargetResult
      → World st
      → (Registry → List TargetResult → World st → TargetResults × World st)
      → TargetResults × World st
  unfolding add_one
  add_fresh t entry [] reg results w next =
      next reg (results ++ result_of t.name entry (new_progress entry.services) ∷ [])
        (tell (nothing_to_do t.name) w)
  add_fresh t entry (s ∷ ss) reg results w next =
      let (r, w') = add_one t entry (s ∷ ss) w in
      let reg' = put_entry r reg in
      let (saved, w'') = save_registry reg' w' in
      stop_or saved results w'' (next reg' (results ++ r ∷ []) w'')

  -- `reg.Apps[name]` of an app that is not there is the zero entry; the check before rules it out.
  add_found :
      AddOptions
      → Target
      → Option AppEntry
      → Registry
      → List TargetResult
      → World st
      → (Registry → List TargetResult → World st → TargetResults × World st)
      → TargetResults × World st
  unfolding add_fresh
  add_found opts t none reg results w next =
      (record { results = results; error = some (app_not_found t.name) }, w)
  add_found opts t (some entry) reg results w next =
      let (svcs, w') = to_provision t.name entry opts.services w in
      add_fresh t entry svcs reg results w' next

  add_loop :
      AddOptions → List Target → Registry → List TargetResult → World st → TargetResults × World st
  unfolding add_found
  add_loop opts [] reg results w = (record { results = results; error = none }, w)
  add_loop opts (t ∷ ts) reg results w =
      add_found opts t (lookup t.name reg.apps) reg results w (add_loop opts ts)

  pub add_checks : Bytes → AddOptions → World st → Result Registry
  unfolding add_targets_of
  add_checks app_name opts w = do
    validate_app_name app_name
    some_services opts.services
    parse_services opts.services
    reg ← st.load w.storage
    check_known (add_targets_of app_name opts reg) reg
    container_check h opts.services w.machine
    ok reg

  add_checked : Bytes → AddOptions → Result Registry → World st → TargetResults × World st
  unfolding add_targets_of
  add_checked app_name opts (err e) w = (record { results = []; error = some e }, w)
  add_checked app_name opts (ok reg) w = add_loop opts (add_targets_of app_name opts reg) reg [] w

  pub add_services : Bytes → AddOptions → World st → TargetResults × World st
  unfolding add_checked
  add_services app_name opts w = add_checked app_name opts (add_checks app_name opts w) w
