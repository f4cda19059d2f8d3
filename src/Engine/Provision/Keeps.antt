-- ===== src/Engine/Provision/Keeps.antt =====
-- The loop over services that an app does not have keeps the configurations that it has.
use infra_shelf.Common.{
  Bytes, false, List, [], ◌∷◌, Option, none, some, Result, ok, err, ◌≡◌, refl, arith, All,
}
use infra_shelf.Registry.{ServiceName, AppEntry, attached, valid_services}
use infra_shelf.Registry.Storage.{Storage}
use infra_shelf.Machine.{Host}
use infra_shelf.Engine.{Config, ProvisionOptions, World, has_service, provision_service}
use infra_shelf.Engine.Attached.{KeepsConfigs, KeepsConfigs-set}
use infra_shelf.Engine.Provision.{
  Progress, record_outcome, provision_known, provision_one, provision_all,
}

abbrev pub Kept : AppEntry → Progress → Type 0
Kept entry p = KeepsConfigs entry.services p.services

module _ {st : Storage} (h : Host) (name : Bytes) (opts : ProvisionOptions) (entry : AppEntry) where
  record_outcome_keeps :
      (svc : Bytes) (s : ServiceName) (r : Result (Config s)) (p : Progress) (w : World st)
      → attached entry.services s ≡ false
      → Kept entry p
      → Kept entry (record_outcome h name opts svc s r p w).0
  unfolding record_outcome
  record_outcome_keeps svc s (ok cfg) p w a k = KeepsConfigs-set s cfg entry.services p.services a k
  record_outcome_keeps svc s (err e) p w a k = k

  provision_known_keeps :
      (svc : Bytes) (o : Option ServiceName) (p : Progress) (w : World st)
      → valid_services svc ≡ o
      → has_service entry svc ≡ false
      → Kept entry p
      → Kept entry (provision_known h name opts svc o p w).0
  unfolding provision_known
  provision_known_keeps svc none p w v a k = k
  provision_known_keeps svc (some s) p w v a k =
      let r = provision_service h s name opts w.machine in
      record_outcome_keeps svc s r.0 p (record w { machine = r.1 }) (ground arith) k

  pub provision_all_keeps :
      (svcs : List Bytes) (p : Progress) (w : World st)
      → All (λ s. has_service entry s ≡ false) svcs
      → Kept entry p
      → Kept entry (provision_all h name opts svcs p w).0
  unfolding provision_all provision_one
  provision_all_keeps [] p w a k = k
  provision_all_keeps (svc ∷ rest) p w (a, more) k =
      let r = provision_one h name opts svc p w in
      provision_all_keeps rest r.0 r.1 more
        (provision_known_keeps svc (valid_services svc) p w refl a k)
