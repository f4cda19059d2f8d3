-- ===== src/Engine/Targets.antt =====
-- What `SetupApp` and `AddServices` do with the result of a target.
use infra_shelf.Common.{Bytes, List, [], Option, some, Result, ok, err, Error, wrapped}
use infra_shelf.Common.Text.{codes}
use infra_shelf.Common.Dict.{insert}
use infra_shelf.Registry.{AppEntry, Registry, Services}
use infra_shelf.Registry.Storage.{Storage}
use infra_shelf.Engine.{World}
use infra_shelf.Engine.Provision.{TargetResult, Progress}

-- Go returns the results so far beside the error.
pub record TargetResults : Type 0 where
  pub results : List TargetResult
  pub error : Option Error

abbrev pub new_progress : Services → Progress
new_progress services = record { services = services; provisioned_services = []; failures = [] }

abbrev pub result_of : Bytes → AppEntry → Progress → TargetResult
result_of name entry p = record {
  name = name;
  entry = entry;
  provisioned_services = p.provisioned_services;
  failures = p.failures;
}

-- `reg.Apps[target.Name] = entry`
abbrev pub put_entry : TargetResult → Registry → Registry
put_entry r reg = record reg { apps = insert r.name r.entry reg.apps }

-- `e.Store.Save(reg)`
abbrev pub save_registry : {st : Storage} → Registry → World st → Result (Unit {0}) × World st
save_registry {st} reg w = let (r, s) = st.save reg w.storage in (r, record w { storage = s })

-- `if err != nil { return results, fmt.Errorf("save registry: %w", err) }`
abbrev pub stop_or :
    {st : Storage}
    → Result (Unit {0})
    → List TargetResult
    → World st
    → TargetResults × World st
    → TargetResults × World st
stop_or (err e) results w rest =
    (record { results = results; error = some (wrapped (codes "save registry") e) }, w)
stop_or (ok u) results w rest = rest
