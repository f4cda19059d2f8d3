-- ===== src/Engine/Provision.antt =====
-- The loop over the services of one target, which `SetupApp` and `AddServices` share.
pub mod Frame
pub mod Keeps
use infra_shelf.Common.{
  Bytes, Bool, List, [], ◌∷◌, ◌++◌, Option, none, some, Result, ok, err, Error, unknown_service,
  ◌+◌,
}
use infra_shelf.Common.Dict.{Dict, insert}
use infra_shelf.Registry.{ServiceName, Services, AppEntry, valid_services}
use infra_shelf.Registry.Storage.{Storage}
use infra_shelf.Machine.{Host, Machine}
use infra_shelf.Engine.{
  Config, ProvisionOptions, World, tell, provisioned, provision_failed, provision_service,
  set_service_config,
}

-- What happened to one materialized app.
pub record TargetResult : Type 0 where
  pub name : Bytes
  pub entry : AppEntry
  pub provisioned_services : List Bytes
  pub failures : Dict Error

-- The services of the entry so far, and the two lists of the result.
pub record Progress : Type 0 where
  pub services : Services
  pub provisioned_services : List Bytes
  pub failures : Dict Error

module _ {st : Storage} (h : Host) (name : Bytes) (opts : ProvisionOptions) where
  -- The outcome of `provisionService`, with the machine that it leaves.
  record_outcome :
      (svc : Bytes) (s : ServiceName)
      → Result (Config s)
      → Progress
      → World st
      → Progress × World st
  record_outcome svc s (err e) p w =
      (record p { failures = insert svc e p.failures }, tell (provision_failed svc name e) w)
  record_outcome svc s (ok cfg) p w = (
    record p {
      services = set_service_config s cfg p.services;
      provisioned_services = p.provisioned_services ++ svc ∷ [];
    },
    tell (provisioned name svc) w,
  )

  provision_known : Bytes → Option ServiceName → Progress → World st → Progress × World st
  unfolding record_outcome
  provision_known svc none p w = (
    record p { failures = insert svc (unknown_service svc) p.failures },
    tell (provision_failed svc name (unknown_service svc)) w,
  )
  provision_known svc (some s) p w =
      let (r, m) = provision_service h s name opts w.machine in
      record_outcome svc s r p (record w { machine = m })

  -- One round of the loop.
  provision_one : Bytes → Progress → World st → Progress × World st
  unfolding provision_known
  provision_one svc p w = provision_known svc (valid_services svc) p w

  pub provision_all : List Bytes → Progress → World st → Progress × World st
  unfolding provision_one
  provision_all [] p w = (p, w)
  provision_all (svc ∷ rest) p w = let (p', w') = provision_one svc p w in provision_all rest p' w'
