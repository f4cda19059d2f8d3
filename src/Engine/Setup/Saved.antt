-- ===== src/Engine/Setup/Saved.antt =====
-- What a setup leaves in the registry, and what it refuses.
use infra_shelf.Common.{
  Bytes, false, List, [], ◌∷◌, ◌++◌, none, some, Result, ok, err, ◌≡◌, refl, ◌∙◌, arith, ap, sym,
  All, append_assoc, append-nil,
}
use infra_shelf.Common.Text.{elem, str_eq_refl}
use infra_shelf.Common.Text.Elem.{IsDistinct}
use infra_shelf.Common.Dict.{lookup, insert-IsSorted, IsSorted, map_values-IsSorted}
use infra_shelf.Registry.{Registry, empty_services}
use infra_shelf.Registry.Coerced.{
  coerced, coerced_entry, IsNamed, insert-IsNamed, map_values-insert,
}
use infra_shelf.Registry.Storage.{Storage}
use infra_shelf.Registry.Store.{stored}
use infra_shelf.Envspec.{Target}
use infra_shelf.Envspec.Targets.{target_names}
use infra_shelf.Machine.{Host}
use infra_shelf.Engine.{World}
use infra_shelf.Engine.Provision.{TargetResult}
use infra_shelf.Engine.Provision.Frame.{provision_all_storage}
use infra_shelf.Engine.Targets.{TargetResults, put_entry, save_registry, stop_or, new_progress}
use infra_shelf.Engine.Setup.{SetupOptions, setup_one, setup_progress, setup_loop}

abbrev pub result_names : List TargetResult → List Bytes
result_names [] = []
result_names (r ∷ rs) = r.name ∷ result_names rs

-- The entry of the result is in the registry, each text as it is saved.
abbrev pub IsIn : Storage → Registry → TargetResult → Type 0
IsIn st reg r = lookup r.name reg.apps ≡ some (coerced_entry st.valid r.entry)

-- What the loop over targets called `names` makes of the apps of a registry.
pub record LoopDone (st : Storage) (names : List Bytes) (reg : Registry)
    (results : List TargetResult) (out : TargetResults) (s : st.State) : Type 0 where
  pub registry : Registry
  pub loads : st.load s ≡ ok registry
  pub sorted : IsSorted registry.apps
  pub others : (n : Bytes) → elem n names ≡ false → lookup n registry.apps ≡ lookup n reg.apps
  pub listed :
      (rs : List TargetResult) × (out.results ≡ results ++ rs)
      × All (IsIn st registry) rs
      × (out.error ≡ none → result_names rs ≡ names)

-- the registry on disk is the one in memory, each text as it is saved
abbrev pub InStep : (st : Storage) → Registry → st.State → Type 0
InStep st reg s =
    (d : Registry) × (st.load s ≡ ok d)
    × (d.apps ≡ (coerced st.valid reg).apps)
    × IsSorted reg.apps
    × IsNamed st.valid reg.apps

-- A registry that was loaded is in step.
pub InStep-loaded :
    (st : Storage) (reg : Registry) (s : st.State)
    → st.load s ≡ ok reg
    → IsSorted reg.apps
    → InStep st reg s
InStep-loaded st reg s l sorted =
    let clean = st.load-IsClean s reg l in
    (reg, l, ap (λ r. r.apps) (sym clean.texts), sorted, clean.names)

pub loaded-IsSorted :
    (st : Storage) (reg d : Registry)
    → d.apps ≡ (coerced st.valid reg).apps
    → IsSorted reg.apps
    → IsSorted d.apps
loaded-IsSorted st reg d same sorted =
    rw same (map_values-IsSorted (coerced_entry st.valid) reg.apps sorted)

pub InStep-eq :
    (st : Storage) (reg : Registry) (s s' : st.State) → s' ≡ s → InStep st reg s → InStep st reg s'
InStep-eq st reg s s' same (d, l, apps, sorted, named) =
    (d, ap st.load same ∙ l, apps, sorted, named)

module _ {st : Storage} where
  -- one save, and the rest of the loop when it goes through
  pub step_done :
      (names : List Bytes) (reg : Registry) (results : List TargetResult) (r : TargetResult)
      (w : World st) (saved : Result (Unit {0})) (rest : TargetResults × World st)
      → (st.save (put_entry r reg) w.storage).0 ≡ saved
      → InStep st reg w.storage
      → st.valid r.name ≡ r.name
      → elem r.name names ≡ false
      → (InStep st (put_entry r reg) (st.save (put_entry r reg) w.storage).1
          → LoopDone st names
              (coerced st.valid (put_entry r reg))
              (results ++ r ∷ [])
              rest.0
              rest.1.storage)
      → let w' = (save_registry (put_entry r reg) w).1 in
        let out = stop_or saved results w' rest in
        LoopDone st (r.name ∷ names) (coerced st.valid reg) results out.0 out.1.storage
  unfolding elem
  step_done names reg results r w (err e) rest h (d, l, same, sorted, named) v new next = record {
    registry = d;
    loads =
        st.load-save_failed (put_entry r reg) w.storage e
          (insert-IsSorted r.name r.entry reg.apps sorted)
          (insert-IsNamed st.valid r.name r.entry reg.apps v named) h
        ∙ l;
    sorted = loaded-IsSorted st reg d same sorted;
    others = λ n out. ap (lookup n) same;
    listed = ([], sym (append-nil results), tt, λ good. absurd (cc good));
  }
  step_done names reg results r w (ok u) rest h (d, l, same, sorted, named) v new next =
      let sorted' = insert-IsSorted r.name r.entry reg.apps sorted in
      let named' = insert-IsNamed st.valid r.name r.entry reg.apps v named in
      let done = next (
        coerced st.valid (stored (put_entry r reg)),
        st.load-save (put_entry r reg) w.storage sorted' named' h,
        refl,
        sorted',
        named',
      ) in
      record {
        registry = done.registry;
        loads = done.loads;
        sorted = done.sorted;
        others = λ n out.
            done.others n (ground arith)
            ∙ map_values-insert st.valid r.name r.entry reg.apps n
            ∙ ground arith;
        listed =
            let (rs, same_results, all, same_names) = done.listed in
            (
              r ∷ rs,
              same_results ∙ append_assoc results (r ∷ []) rs,
              (
                done.others r.name new
                    ∙ map_values-insert st.valid r.name r.entry reg.apps r.name
                    ∙ rw (str_eq_refl r.name) refl,
                all,
              ),
              λ good. ap (λ ns. r.name ∷ ns) (same_names good),
            );
      }

module _ {st : Storage} (h : Host) where
  setup_one_storage :
      (opts : SetupOptions) (t : Target) (w : World st)
      → (setup_one h opts t w).1.storage ≡ w.storage
  unfolding setup_one setup_progress
  setup_one_storage opts t w =
      provision_all_storage h t.name _ opts.services (new_progress empty_services) w

  -- The loop over the targets, from a registry that is on disk.
  pub setup_loop_lem :
      (opts : SetupOptions) (ts : List Target) (reg : Registry) (results : List TargetResult)
      (w : World st)
      → InStep st reg w.storage
      → All (λ n. st.valid n ≡ n) (target_names ts)
      → IsDistinct (target_names ts)
      → let out = setup_loop h opts ts reg results w in
        LoopDone st (target_names ts) (coerced st.valid reg) results out.0 out.1.storage
  unfolding setup_loop setup_one
  setup_loop_lem opts [] reg results w (d, l, same, sorted, named) v distinct = record {
    registry = d;
    loads = l;
    sorted = loaded-IsSorted st reg d same sorted;
    others = λ n out. ap (lookup n) same;
    listed = ([], sym (append-nil results), tt, λ good. refl);
  }
  setup_loop_lem opts (t ∷ ts) reg results w in_step (v, vs) (new, distinct) =
      let r = setup_one h opts t w in
      let reg' = put_entry r.0 reg in
      let w' = (save_registry reg' r.1).1 in
      step_done (target_names ts) reg results r.0 r.1 (st.save reg' r.1.storage).0
        (setup_loop h opts ts reg' (results ++ r.0 ∷ []) w') refl
        (InStep-eq st reg _ _ (setup_one_storage opts t w) in_step) v new
        (λ next. setup_loop_lem opts ts reg' (results ++ r.0 ∷ []) w' next vs distinct)
