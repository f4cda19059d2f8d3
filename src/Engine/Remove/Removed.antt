-- ===== src/Engine/Remove/Removed.antt =====
-- `RemoveApp` takes its app out of the registry and leaves the others.
use infra_shelf.Common.{
  Bytes, Bool, true, false, List, [], ◌∷◌, none, some, Result, ok, err, ◌≡◌, refl, ◌∙◌, arith, ap,
  if◌then◌else◌,
}
use infra_shelf.Common.Text.{str_eq}
use infra_shelf.Common.Dict.{lookup, delete, delete-IsSorted, IsSorted}
use infra_shelf.Registry.{ServiceName, Registry, AppEntry, attached}
use infra_shelf.Registry.Coerced.{coerced, delete-IsNamed, coerced-delete}
use infra_shelf.Registry.Storage.{Storage}
use infra_shelf.Registry.Store.{stored}
use infra_shelf.Machine.{Host}
use infra_shelf.Engine.{World, teardown_service}
use infra_shelf.Engine.Targets.{save_registry}
use infra_shelf.Engine.Remove.{
  ordered_services, report_teardown, teardown_one, teardown_all, remove_checks, remove_saved,
  remove_checked, remove_app,
}

module _ {st : Storage} where
  if_storage :
      (b : Bool) (x w : World st) → x.storage ≡ w.storage → (if b then x else w).storage ≡ w.storage
  if_storage true x w e = e
  if_storage false x w e = refl

module _ {st : Storage} (h : Host) where
  report_teardown_storage :
      (s : ServiceName) (r : Result (Unit {0})) (w : World st)
      → (report_teardown h s r w).storage ≡ w.storage
  unfolding report_teardown
  report_teardown_storage s (ok u) w = refl
  report_teardown_storage s (err e) w = refl

  teardown_all_storage :
      (app : Bytes) (entry : AppEntry) (ss : List ServiceName) (w : World st)
      → (teardown_all h app entry ss w).storage ≡ w.storage
  unfolding teardown_all teardown_one
  teardown_all_storage app entry [] w = refl
  teardown_all_storage app entry (s ∷ ss) w =
      let r = teardown_service h s app w.machine in
      teardown_all_storage app entry ss _
      ∙ if_storage (attached entry.services s) _ w
          (report_teardown_storage s r.0 (record w { machine = r.1 }))

-- The app was in the registry, and is no longer; the others are as they were.
pub record Removed (st : Storage) (app : Bytes) (before after : st.State) : Type 0 where
  pub registry : Registry
  pub left : Registry
  pub entry : AppEntry
  pub loaded : st.load before ≡ ok registry
  pub was_there : lookup app registry.apps ≡ some entry
  pub loads : st.load after ≡ ok left
  pub others :
      (n : Bytes) → lookup n left.apps ≡ (if str_eq app n then none else lookup n registry.apps)

abbrev pub RemoveOutcome : (st : Storage) → Bytes → World st → Result (Unit {0}) × World st → Type 0
RemoveOutcome st app w (err e, w') = st.load w'.storage ≡ st.load w.storage
RemoveOutcome st app w (ok u, w') = Removed st app w.storage w'.storage

module _ (st : Storage) (h : Host) (app : Bytes) (w : World st) where
  remove_checks_ok :
      (reg : Registry) (entry : AppEntry)
      → remove_checks h app w ≡ ok (reg, entry)
      → (st.load w.storage ≡ ok reg) × (lookup app reg.apps ≡ some entry)
  unfolding remove_checks
  remove_checks_ok reg entry c = ground arith

  remove_saved_lem :
      (reg : Registry) (entry : AppEntry) (w' : World st) (r : Result (Unit {0}))
      → st.load w.storage ≡ ok reg
      → lookup app reg.apps ≡ some entry
      → IsSorted reg.apps
      → w'.storage ≡ w.storage
      → let left = record reg { apps = delete app reg.apps } in
        (st.save left w'.storage).0 ≡ r
        → RemoveOutcome st app w (remove_saved h app (r, (save_registry left w').1))
  unfolding remove_saved
  remove_saved_lem reg entry w' (err e) l found sorted same saved =
      st.load-save_failed _ w'.storage e (delete-IsSorted app reg.apps sorted)
        (delete-IsNamed st.valid app reg.apps (st.load-IsClean w.storage reg l).names) saved
      ∙ ap st.load same
  remove_saved_lem reg entry w' (ok u) l found sorted same saved = record {
    registry = reg;
    left = coerced st.valid (stored (record reg { apps = delete app reg.apps }));
    entry = entry;
    loaded = l;
    was_there = found;
    loads =
        st.load-save _ w'.storage (delete-IsSorted app reg.apps sorted)
          (delete-IsNamed st.valid app reg.apps (st.load-IsClean w.storage reg l).names) saved;
    others = coerced-delete st.valid app reg (st.load-IsClean w.storage reg l).texts;
  }

  remove_checked_lem :
      (checks : Result (Registry × AppEntry))
      → remove_checks h app w ≡ checks
      → ((reg : Registry) → st.load w.storage ≡ ok reg → IsSorted reg.apps)
      → RemoveOutcome st app w (remove_checked h app checks w)
  unfolding remove_checked
  remove_checked_lem (err e) c sorted = refl
  remove_checked_lem (ok (reg, entry)) c sorted =
      let (l, found) = remove_checks_ok reg entry c in
      remove_saved_lem reg entry (teardown_all h app entry ordered_services w) _ l found
        (sorted reg l) (teardown_all_storage h app entry ordered_services w) refl

  -- `RemoveApp` on a registry that is in order: with an error, what is loaded is what was loaded
  -- before. Without one, the app was in the registry and is no longer, whatever the teardowns gave,
  -- and every other app is as it was.
  pub remove_app_lem :
      ((reg : Registry) → st.load w.storage ≡ ok reg → IsSorted reg.apps)
      → RemoveOutcome st app w (remove_app h app w)
  unfolding remove_app
  remove_app_lem sorted = remove_checked_lem (remove_checks h app w) refl sorted
