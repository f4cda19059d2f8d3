-- ===== src/Engine/Add/Keeps.antt =====
-- `AddServices` takes nothing away: every app stays, with every configuration that it has.
use infra_shelf.Common.{
  Bytes, false, List, [], ◌∷◌, ◌++◌, Option, none, some, Result, ok, err, ◌≡◌, refl, ◌∙◌, arith, ap,
  All, Bool-cases, inl, inr, subst,
}
use infra_shelf.Common.Dict.{lookup, insert-IsSorted, IsSorted}
use infra_shelf.Registry.{Registry, AppEntry}
use infra_shelf.Registry.Coerced.{coerced, IsNamed, insert-IsNamed}
use infra_shelf.Registry.Storage.{Storage}
use infra_shelf.Registry.Store.{stored}
use infra_shelf.Envspec.{Target}
use infra_shelf.Machine.{Host}
use infra_shelf.Engine.{World, tell, nothing_to_do, has_service}
use infra_shelf.Engine.Attached.{Extends, Extends-refl, Extends-trans, Extends-insert}
use infra_shelf.Engine.Coerced.{Extends-coerced}
use infra_shelf.Engine.Provision.{TargetResult}
use infra_shelf.Engine.Provision.Keeps.{provision_all_keeps}
use infra_shelf.Engine.Provision.Frame.{provision_all_storage}
use infra_shelf.Engine.Targets.{TargetResults, put_entry, save_registry, stop_or, new_progress}
use infra_shelf.Engine.Setup.Saved.{InStep, InStep-eq, InStep-loaded, loaded-IsSorted}
use infra_shelf.Engine.Add.{
  AddOptions, to_provision, add_progress, add_one, add_fresh, add_found, add_loop, add_checks,
  add_targets_of, add_checked, add_services,
}

module _ {st : Storage} where
  to_provision_storage :
      (name : Bytes) (entry : AppEntry) (svcs : List Bytes) (w : World st)
      → (to_provision name entry svcs w).1.storage ≡ w.storage
  unfolding to_provision
  to_provision_storage name entry [] w = refl
  to_provision_storage name entry (svc ∷ rest) w = elim (Bool-cases (has_service entry svc)) [
    | inl has ↦ rw has (to_provision_storage name entry rest _)
    | inr hasn't ↦ rw hasn't (to_provision_storage name entry rest w)
  ]

  to_provision_lem :
      (name : Bytes) (entry : AppEntry) (svcs : List Bytes) (w : World st)
      → All (λ s. has_service entry s ≡ false) (to_provision name entry svcs w).0
  unfolding to_provision
  to_provision_lem name entry [] w = tt
  to_provision_lem name entry (svc ∷ rest) w = elim (Bool-cases (has_service entry svc)) [
    | inl has ↦ rw has (to_provision_lem name entry rest _)
    | inr hasn't ↦ rw hasn't (hasn't, to_provision_lem name entry rest w)
  ]

-- The registry on disk has every app of `reg`, with every configuration.
abbrev pub Extended : (st : Storage) → Registry → st.State → Type 0
Extended st reg s = (d : Registry) × (st.load s ≡ ok d) × IsSorted d.apps × Extends reg d

InStep-Extended :
    (st : Storage) (reg : Registry) (s : st.State)
    → InStep st reg s
    → Extended st (coerced st.valid reg) s
InStep-Extended st reg s (d, l, same, sorted, named) =
    (d, l, loaded-IsSorted st reg d same sorted, λ n e h. (e, ap (lookup n) same ∙ h, λ _ _ k. k))

-- The rest of a loop keeps what the registry has, whatever the registry.
abbrev pub KeepsOn :
    (st : Storage) → (Registry → List TargetResult → World st → TargetResults × World st) → Type 0
KeepsOn st next =
    (reg : Registry) (results : List TargetResult) (w : World st)
    → InStep st reg w.storage
    → Extended st (coerced st.valid reg) (next reg results w).1.storage

module _ {st : Storage} where
  -- A save of a registry that extends the one on disk, and the rest of the loop.
  stop_or-Extended :
      (reg reg' : Registry) (results : List TargetResult) (w : World st) (saved : Result (Unit {0}))
      (rest : TargetResults × World st)
      → (st.save reg' w.storage).0 ≡ saved
      → InStep st reg w.storage
      → IsSorted reg'.apps
      → IsNamed st.valid reg'.apps
      → Extends reg reg'
      → (InStep st reg' (st.save reg' w.storage).1
          → Extended st (coerced st.valid reg') rest.1.storage)
      → Extended st
          (coerced st.valid reg)
          (stop_or saved results (save_registry reg' w).1 rest).1.storage
  stop_or-Extended reg reg' results w (err e) rest h (d, l, same, sorted, named) sorted' named'
        grows next =
      InStep-Extended st reg _
        (d, st.load-save_failed reg' w.storage e sorted' named' h ∙ l, same, sorted, named)
  stop_or-Extended reg reg' results w (ok u) rest h (d, l, same, sorted, named) sorted' named' grows
        next =
      let (d', l', s', more) = next (
        coerced st.valid (stored reg'),
        st.load-save reg' w.storage sorted' named' h,
        refl,
        sorted',
        named',
      ) in
      (
        d',
        l',
        s',
        Extends-trans (coerced st.valid reg) (coerced st.valid reg') d'
            (Extends-coerced st.valid reg reg' grows) more,
      )

module _ {st : Storage} (h : Host) (opts : AddOptions) where
  add_fresh_keeps :
      (t : Target) (entry : AppEntry) (svcs : List Bytes) (reg : Registry)
      (results : List TargetResult) (w : World st)
      (next : Registry → List TargetResult → World st → TargetResults × World st)
      → lookup t.name reg.apps ≡ some entry
      → All (λ s. has_service entry s ≡ false) svcs
      → InStep st reg w.storage
      → KeepsOn st next
      → Extended st (coerced st.valid reg) (add_fresh h t entry svcs reg results w next).1.storage
  unfolding add_fresh add_one add_progress
  add_fresh_keeps t entry [] reg results w next found fresh in_step keeps =
      keeps reg _ (tell (nothing_to_do t.name) w) in_step
  add_fresh_keeps t entry (s ∷ ss) reg results w next found fresh in_step keeps =
      let r = add_one h t entry (s ∷ ss) w in
      let reg' = put_entry r.0 reg in
      let w' = (save_registry reg' r.1).1 in
      let (d, l, same, sorted, named) = in_step in
      stop_or-Extended reg reg' results r.1 (st.save reg' r.1.storage).0
        (next reg' (results ++ r.0 ∷ []) w') refl
        (InStep-eq st reg _ _
          (provision_all_storage h t.name _ (s ∷ ss) (new_progress entry.services) w) in_step)
        (insert-IsSorted t.name r.0.entry reg.apps sorted)
        (insert-IsNamed st.valid t.name r.0.entry reg.apps (named t.name entry found) named)
        (Extends-insert reg t.name entry r.0.entry found (
          provision_all_keeps h t.name _ entry (s ∷ ss) (new_progress entry.services) w fresh
            (λ _ _ k. k)))
        (λ saved. keeps reg' (results ++ r.0 ∷ []) w' saved)

  add_found_keeps :
      (t : Target) (found : Option AppEntry) (reg : Registry) (results : List TargetResult)
      (w : World st) (next : Registry → List TargetResult → World st → TargetResults × World st)
      → lookup t.name reg.apps ≡ found
      → InStep st reg w.storage
      → KeepsOn st next
      → Extended st (coerced st.valid reg) (add_found h opts t found reg results w next).1.storage
  unfolding add_found
  add_found_keeps t none reg results w next found in_step keeps =
      InStep-Extended st reg w.storage in_step
  add_found_keeps t (some entry) reg results w next found in_step keeps =
      let r = to_provision t.name entry opts.services w in
      add_fresh_keeps t entry r.0 reg results r.1 next found
        (to_provision_lem t.name entry opts.services w)
        (InStep-eq st reg _ _ (to_provision_storage t.name entry opts.services w) in_step) keeps

  add_loop_keeps : (ts : List Target) → KeepsOn st (add_loop h opts ts)
  unfolding add_loop
  add_loop_keeps [] reg results w in_step = InStep-Extended st reg w.storage in_step
  add_loop_keeps (t ∷ ts) reg results w in_step =
      add_found_keeps t (lookup t.name reg.apps) reg results w (add_loop h opts ts) refl in_step
        (add_loop_keeps ts)

module _ (st : Storage) (h : Host) (app : Bytes) (opts : AddOptions) (w : World st)
    (reg : Registry) where
  add_checks_ok : (r : Registry) → add_checks h app opts w ≡ ok r → st.load w.storage ≡ ok r
  unfolding add_checks
  add_checks_ok r e = ground arith

  add_checked_keeps :
      (checks : Result Registry)
      → add_checks h app opts w ≡ checks
      → st.load w.storage ≡ ok reg
      → IsSorted reg.apps
      → Extended st reg (add_checked h app opts checks w).1.storage
  unfolding add_checked
  add_checked_keeps (err e) c l sorted = (reg, l, sorted, Extends-refl reg)
  add_checked_keeps (ok r) c l sorted =
      let same : r ≡ reg = cc (add_checks_ok r c, l) in
      let clean = st.load-IsClean w.storage reg l in
      subst (λ d. Extended st d (add_loop h opts (add_targets_of app opts r) r [] w).1.storage)
        (ap (coerced st.valid) same ∙ clean.texts)
        (add_loop_keeps h opts _ r [] w
          (InStep-loaded st r w.storage (add_checks_ok r c) (rw same sorted)))

  -- After `AddServices` on a registry that is in order, whether it fails or not, the registry can be
  -- loaded, and has every app that it had, with every configuration that the app had.
  pub add_services-keeps :
      st.load w.storage ≡ ok reg
      → IsSorted reg.apps
      → Extended st reg (add_services h app opts w).1.storage
  unfolding add_services
  add_services-keeps l sorted = add_checked_keeps (add_checks h app opts w) refl l sorted
