-- ===== src/Engine/Provision/Frame.antt =====
-- The loop over the services does not touch the registry, and each service ends in one of two lists.
use infra_shelf.Common.{
  Bytes, Bool, ◌||◌, List, [], ◌∷◌, ◌++◌, Option, none, some, Result, ok, err, Error, is_some, ◌≡◌,
  refl, ◌∙◌, arith, unknown_service,
}
use infra_shelf.Common.Text.{elem, str_eq}
use infra_shelf.Common.Text.Elem.{elem-append}
use infra_shelf.Common.Dict.{lookup, insert, lookup-insert}
use infra_shelf.Registry.{ServiceName, valid_services}
use infra_shelf.Registry.Storage.{Storage}
use infra_shelf.Machine.{Host}
use infra_shelf.Engine.{Config, ProvisionOptions, World, provision_service}
use infra_shelf.Engine.Provision.{
  Progress, record_outcome, provision_known, provision_one, provision_all,
}

-- The service is among the provisioned ones or has a failure.
abbrev pub recorded : Bytes → Progress → Bool
recorded s p = elem s p.provisioned_services || is_some (lookup s p.failures)

recorded_failure :
    (s svc : Bytes) (e : Error) (p : Progress)
    → recorded s (record p { failures = insert svc e p.failures }) ≡ (str_eq svc s || recorded s p)
recorded_failure s svc e p = ground (arith, lookup-insert svc s e p.failures)

recorded_success :
    (s svc : Bytes) (p : Progress)
    → elem s (p.provisioned_services ++ svc ∷ []) || is_some (lookup s p.failures)
      ≡ (str_eq svc s || recorded s p)
unfolding elem
recorded_success s svc p = ground (arith, elem-append s p.provisioned_services (svc ∷ []))

module _ {st : Storage} (h : Host) (name : Bytes) (opts : ProvisionOptions) where
  record_outcome_storage :
      (svc : Bytes) (s : ServiceName) (r : Result (Config s)) (p : Progress) (w : World st)
      → (record_outcome h name opts svc s r p w).1.storage ≡ w.storage
  unfolding record_outcome
  record_outcome_storage svc s (ok cfg) p w = refl
  record_outcome_storage svc s (err e) p w = refl

  provision_known_storage :
      (svc : Bytes) (o : Option ServiceName) (p : Progress) (w : World st)
      → (provision_known h name opts svc o p w).1.storage ≡ w.storage
  unfolding provision_known
  provision_known_storage svc none p w = refl
  provision_known_storage svc (some s) p w =
      let r = provision_service h s name opts w.machine in
      record_outcome_storage svc s r.0 p (record w { machine = r.1 })

  pub provision_all_storage :
      (svcs : List Bytes) (p : Progress) (w : World st)
      → (provision_all h name opts svcs p w).1.storage ≡ w.storage
  unfolding provision_all provision_one
  provision_all_storage [] p w = refl
  provision_all_storage (svc ∷ rest) p w =
      let r = provision_one h name opts svc p w in
      provision_all_storage rest r.0 r.1 ∙ provision_known_storage svc (valid_services svc) p w

  record_outcome-recorded :
      (x svc : Bytes) (s : ServiceName) (r : Result (Config s)) (p : Progress) (w : World st)
      → recorded x (record_outcome h name opts svc s r p w).0 ≡ (str_eq svc x || recorded x p)
  unfolding record_outcome
  record_outcome-recorded x svc s (ok cfg) p w = recorded_success x svc p
  record_outcome-recorded x svc s (err e) p w = recorded_failure x svc e p

  provision_known-recorded :
      (x svc : Bytes) (o : Option ServiceName) (p : Progress) (w : World st)
      → recorded x (provision_known h name opts svc o p w).0 ≡ (str_eq svc x || recorded x p)
  unfolding provision_known
  provision_known-recorded x svc none p w = recorded_failure x svc (unknown_service svc) p
  provision_known-recorded x svc (some s) p w =
      let r = provision_service h s name opts w.machine in
      record_outcome-recorded x svc s r.0 p (record w { machine = r.1 })

  -- Whatever the machine answers, the loop records exactly the services that it was given and
  -- those recorded before it: each is among the provisioned ones or has a failure.
  pub provision_all-recorded :
      (x : Bytes) (svcs : List Bytes) (p : Progress) (w : World st)
      → recorded x (provision_all h name opts svcs p w).0 ≡ (elem x svcs || recorded x p)
  unfolding provision_all provision_one elem
  provision_all-recorded x [] p w = refl
  provision_all-recorded x (svc ∷ rest) p w =
      let r = provision_one h name opts svc p w in
      ground (
        arith,
        provision_all-recorded x rest r.0 r.1,
        provision_known-recorded x svc (valid_services svc) p w,
      )
