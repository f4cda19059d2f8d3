-- ===== src/Engine/Remove.antt =====
-- internal/shelfcore: remove.go, detach.go, credentials.go
pub mod Removed
pub mod Cleared
pub mod Detached
use infra_shelf.Common.{
  Bytes, Bool, true, false, List, [], ◌∷◌, ◌++◌, Option, none, some, Result, ok, err, Error,
  app_not_found, not_detachable, wrapped, unknown_service, ◌>>=◌, ◌>>◌, if◌then◌else◌,
}
use infra_shelf.Common.Text.{codes}
use infra_shelf.Common.Dict.{lookup, insert, delete}
use infra_shelf.Registry.{
  ServiceName, App, AppEntry, Registry, attached, service_string, service_catalog, valid_services,
}
use infra_shelf.Registry.Env.{env_file}
use infra_shelf.Registry.Names.{validate_app_name, parse_services}
use infra_shelf.Registry.Storage.{Storage}
use infra_shelf.Registry.Store.{app_of}
use infra_shelf.Machine.{Host, Machine}
use infra_shelf.Engine.{
  World, tell, has_service, detachable, clear_service_config, teardown_service, teardown_failed,
  removed_resources, removed_app, not_attached, detached,
}
use infra_shelf.Engine.Setup.{some_services}
use infra_shelf.Engine.Targets.{save_registry}

-- `orderedServices`
abbrev pub ordered_services : List ServiceName
ordered_services = service_catalog

-- `entry, ok := reg.Apps[appName]; if !ok { return … }`
abbrev pub entry_of : Bytes → Registry → Result AppEntry
entry_of name reg = elim (lookup name reg.apps) [ none ↦ err (app_not_found name) | some e ↦ ok e ]

unfoldable pub check_detachable : List Bytes → Result (Unit {0})
check_detachable [] = ok tt
check_detachable (svc ∷ rest) =
    if detachable svc then check_detachable rest else err (not_detachable svc)

module _ {st : Storage} (h : Host) where
  -- A failed teardown is reported, and the loop goes on.
  report_teardown : ServiceName → Result (Unit {0}) → World st → World st
  report_teardown s (err e) w = tell (teardown_failed (service_string s) e) w
  report_teardown s (ok u) w = tell (removed_resources (service_string s)) w

  teardown_one : Bytes → ServiceName → World st → World st
  unfolding report_teardown
  teardown_one app_name s w =
      let (r, m) = teardown_service h s app_name w.machine in
      report_teardown s r (record w { machine = m })

  teardown_all : Bytes → AppEntry → List ServiceName → World st → World st
  unfolding teardown_one
  teardown_all app_name entry [] w = w
  teardown_all app_name entry (s ∷ rest) w =
      teardown_all app_name entry rest
        (if attached entry.services s then teardown_one app_name s w else w)

  pub remove_checks : Bytes → World st → Result (Registry × AppEntry)
  remove_checks app_name w = do
    validate_app_name app_name
    reg ← st.load w.storage
    entry ← entry_of app_name reg
    ok (reg, entry)

  remove_saved : Bytes → Result (Unit {0}) × World st → Result (Unit {0}) × World st
  remove_saved app_name (err e, w) = (err (wrapped (codes "save registry") e), w)
  remove_saved app_name (ok u, w) = (ok tt, tell (removed_app app_name) w)

  remove_checked : Bytes → Result (Registry × AppEntry) → World st → Result (Unit {0}) × World st
  unfolding teardown_all remove_saved
  remove_checked app_name (err e) w = (err e, w)
  remove_checked app_name (ok (reg, entry)) w = remove_saved app_name (
      save_registry (record reg { apps = delete app_name reg.apps })
        (teardown_all app_name entry ordered_services w))

  pub remove_app : Bytes → World st → Result (Unit {0}) × World st
  unfolding remove_checked
  remove_app app_name w = remove_checked app_name (remove_checks app_name w) w

  detach_torn :
      Bytes → ServiceName → AppEntry → Result (Unit {0}) → World st → Result AppEntry × World st
  detach_torn app_name s entry (err e) w = (err (wrapped (codes "teardown") e), w)
  detach_torn app_name s entry (ok u) w = (
    ok (record entry { services = clear_service_config s entry.services }),
    tell (detached (service_string s) app_name) w,
  )

  -- One round of the loop: a service that is not attached is skipped with a warning.
  detach_known :
      Bytes → Bytes → Option ServiceName → AppEntry → World st → Result AppEntry × World st
  unfolding detach_torn
  detach_known app_name svc none entry w = (ok entry, tell (not_attached svc app_name) w)
  detach_known app_name svc (some s) entry w =
      let (r, m) = teardown_service h s app_name w.machine in
      let torn = detach_torn app_name s entry r (record w { machine = m }) in
      if attached entry.services s then torn else (ok entry, tell (not_attached svc app_name) w)

  detach_next :
      (AppEntry → World st → Result AppEntry × World st)
      → Result AppEntry × World st
      → Result AppEntry × World st
  detach_next next (err e, w) = (err e, w)
  detach_next next (ok entry, w) = next entry w

  pub detach_all : Bytes → List Bytes → AppEntry → World st → Result AppEntry × World st
  unfolding detach_known detach_next
  detach_all app_name [] entry w = (ok entry, w)
  detach_all app_name (svc ∷ rest) entry w =
      detach_next (detach_all app_name rest)
        (detach_known app_name svc (valid_services svc) entry w)

  pub detach_checks : Bytes → List Bytes → World st → Result (Registry × AppEntry)
  detach_checks app_name services w = do
    validate_app_name app_name
    some_services services
    parse_services services
    check_detachable services
    reg ← st.load w.storage
    entry ← entry_of app_name reg
    ok (reg, entry)

  detach_saved : Bytes → Registry → Result AppEntry × World st → Result (Unit {0}) × World st
  detach_saved app_name reg (err e, w) = (err e, w)
  detach_saved app_name reg (ok entry, w) =
      save_registry (record reg { apps = insert app_name entry reg.apps }) w

  detach_checked :
      Bytes → List Bytes → Result (Registry × AppEntry) → World st → Result (Unit {0}) × World st
  unfolding detach_saved
  detach_checked app_name services (err e) w = (err e, w)
  detach_checked app_name services (ok (reg, entry)) w =
      detach_saved app_name reg (detach_all app_name services entry w)

  pub detach_services : Bytes → List Bytes → World st → Result (Unit {0}) × World st
  unfolding detach_checked
  detach_services app_name services w =
      detach_checked app_name services (detach_checks app_name services w) w

-- `Credentials`: the rendered .env of an app.
pub credentials : {st : Storage} → Bytes → World st → Result Bytes
credentials {st} app_name w = do
  validate_app_name app_name
  reg ← st.load w.storage
  entry ← entry_of app_name reg
  ok (env_file (app_of app_name entry))
