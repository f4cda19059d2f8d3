-- ===== src/Engine/Remove/Detached.antt =====
-- `DetachServices` clears the services that it is given, in its app, and nothing else.
use infra_shelf.Common.{
  Bytes, Bool, true, false, List, [], ◌∷◌, Option, none, some, Result, ok, err, ◌≡◌, refl, ◌∙◌,
  arith, ap, sym, if◌then◌else◌,
}
use infra_shelf.Common.Text.{str_eq}
use infra_shelf.Common.Dict.{lookup, insert, insert-IsSorted, IsSorted}
use infra_shelf.Registry.{ServiceName, Registry, AppEntry, attached, valid_services}
use infra_shelf.Registry.Coerced.{coerced, coerced_entry, IsNamed, insert-IsNamed, coerced-insert}
use infra_shelf.Registry.Storage.{Storage}
use infra_shelf.Registry.Store.{stored}
use infra_shelf.Machine.{Host}
use infra_shelf.Engine.{World, teardown_service}
use infra_shelf.Engine.Coerced.{coerced_entry-of}
use infra_shelf.Engine.Remove.Cleared.{
  Cleared, Round, Cleared-nil, Cleared-cons, skipped, cleared, Cleared-coerced,
}
use infra_shelf.Engine.Targets.{save_registry}
use infra_shelf.Engine.Remove.{
  detach_torn, detach_known, detach_next, detach_all, detach_checks, detach_saved, detach_checked,
  detach_services,
}

abbrev RoundDone : Bytes → AppEntry → Result AppEntry → Type 0
RoundDone svc before (err e) = Unit
RoundDone svc before (ok mid) = Round svc before mid

abbrev AllDone : List Bytes → AppEntry → Result AppEntry → Type 0
AllDone svcs before (err e) = Unit
AllDone svcs before (ok after) = Cleared svcs before after

all_done :
    (svc : Bytes) (svcs : List Bytes) (e mid : AppEntry) (r : Result AppEntry)
    → Round svc e mid
    → AllDone svcs mid r
    → AllDone (svc ∷ svcs) e r
all_done svc svcs e mid (err x) d done = tt
all_done svc svcs e mid (ok after) d done = Cleared-cons svc svcs e mid after d done

some_inj : {s t : ServiceName} → some s ≡ some t → s ≡ t
some_inj h = cc

module _ {st : Storage} (h : Host) (app : Bytes) where
  detach_torn_lem :
      (svc : Bytes) (s : ServiceName) (e : AppEntry) (r : Result (Unit {0})) (w : World st)
      → valid_services svc ≡ some s
      → RoundDone svc e (detach_torn h app s e r w).0
        × ((detach_torn h app s e r w).1.storage ≡ w.storage)
  unfolding detach_torn
  detach_torn_lem svc s e (ok u) w v = (cleared svc s e v, refl)
  detach_torn_lem svc s e (err x) w v = (tt, refl)

  if_round :
      (svc : Bytes) (e : AppEntry) (b : Bool) (x y : Result AppEntry × World st) (w : World st)
      → RoundDone svc e x.0 × (x.1.storage ≡ w.storage)
      → (b ≡ false → RoundDone svc e y.0 × (y.1.storage ≡ w.storage))
      → let r = if b then x else y in RoundDone svc e r.0 × (r.1.storage ≡ w.storage)
  if_round svc e true x y w p q = p
  if_round svc e false x y w p q = q refl

  detach_known_lem :
      (svc : Bytes) (o : Option ServiceName) (e : AppEntry) (w : World st)
      → valid_services svc ≡ o
      → let r = detach_known h app svc o e w in RoundDone svc e r.0 × (r.1.storage ≡ w.storage)
  unfolding detach_known
  detach_known_lem svc none e w v = (skipped svc none e v (λ s bad. absurd (cc bad)), refl)
  detach_known_lem svc (some s) e w v =
      let r = teardown_service h s app w.machine in
      if_round svc e (attached e.services s) _ _ w
        (detach_torn_lem svc s e r.0 (record w { machine = r.1 }) v)
        (λ absent. (skipped svc (some s) e v (λ t same. rw (sym (some_inj same)) absent), refl))

  detach_next_lem :
      (svc : Bytes) (svcs : List Bytes) (e : AppEntry) (w : World st)
      (next : AppEntry → World st → Result AppEntry × World st) (r : Result AppEntry × World st)
      → RoundDone svc e r.0 × (r.1.storage ≡ w.storage)
      → ((mid : AppEntry) (w' : World st)
          → AllDone svcs mid (next mid w').0 × ((next mid w').1.storage ≡ w'.storage))
      → let out = detach_next h next r in AllDone (svc ∷ svcs) e out.0 × (out.1.storage ≡ w.storage)
  unfolding detach_next
  detach_next_lem svc svcs e w next (err x, w') (d, same) rest = (tt, same)
  detach_next_lem svc svcs e w next (ok mid, w') (d, same) rest =
      let (done, same') = rest mid w' in
      (all_done svc svcs e mid (next mid w').0 d done, same' ∙ same)

  detach_all_lem :
      (svcs : List Bytes) (e : AppEntry) (w : World st)
      → AllDone svcs e (detach_all h app svcs e w).0
        × ((detach_all h app svcs e w).1.storage ≡ w.storage)
  unfolding detach_all
  detach_all_lem [] e w = (Cleared-nil e, refl)
  detach_all_lem (svc ∷ svcs) e w =
      detach_next_lem svc svcs e w (detach_all h app svcs) _
        (detach_known_lem svc (valid_services svc) e w refl) (detach_all_lem svcs)

-- The app has another entry, and the other apps are as they were.
pub record Detached (st : Storage) (app : Bytes) (svcs : List Bytes) (before after : st.State)
    : Type 0 where
  pub registry : Registry
  pub changed : Registry
  pub entry : AppEntry
  pub entry_after : AppEntry
  pub loaded : st.load before ≡ ok registry
  pub was_there : lookup app registry.apps ≡ some entry
  pub loads : st.load after ≡ ok changed
  pub apps :
      (n : Bytes)
      → lookup n changed.apps ≡ (if str_eq app n then some entry_after else lookup n registry.apps)
  pub cleared_services : Cleared svcs entry entry_after

abbrev pub DetachOutcome :
    (st : Storage) → Bytes → List Bytes → World st → Result (Unit {0}) × World st → Type 0
DetachOutcome st app svcs w (err e, w') = st.load w'.storage ≡ st.load w.storage
DetachOutcome st app svcs w (ok u, w') = Detached st app svcs w.storage w'.storage

module _ (st : Storage) (h : Host) (app : Bytes) (svcs : List Bytes) (w : World st) where
  detach_checks_ok :
      (reg : Registry) (entry : AppEntry)
      → detach_checks h app svcs w ≡ ok (reg, entry)
      → (st.load w.storage ≡ ok reg) × (lookup app reg.apps ≡ some entry)
  unfolding detach_checks
  detach_checks_ok reg entry c = ground arith

  -- the name of the app is valid, since the registry that was loaded has it
  named :
      (reg : Registry) (entry e' : AppEntry)
      → st.load w.storage ≡ ok reg
      → lookup app reg.apps ≡ some entry
      → IsNamed st.valid (insert app e' reg.apps)
  named reg entry e' l found =
      let clean = st.load-IsClean w.storage reg l in
      insert-IsNamed st.valid app e' reg.apps (clean.names app entry found) clean.names

  save_lem :
      (reg : Registry) (entry e' : AppEntry) (w' : World st) (r : Result (Unit {0}))
      → st.load w.storage ≡ ok reg
      → lookup app reg.apps ≡ some entry
      → IsSorted reg.apps
      → w'.storage ≡ w.storage
      → Cleared svcs entry e'
      → let changed = record reg { apps = insert app e' reg.apps } in
        (st.save changed w'.storage).0 ≡ r
        → DetachOutcome st app svcs w (r, (save_registry changed w').1)
  save_lem reg entry e' w' (err e) l found sorted same done saved =
      st.load-save_failed _ w'.storage e (insert-IsSorted app e' reg.apps sorted)
        (named reg entry e' l found) saved
      ∙ ap st.load same
  save_lem reg entry e' w' (ok u) l found sorted same done saved =
      let clean = st.load-IsClean w.storage reg l in
      record {
        registry = reg;
        changed = coerced st.valid (stored (record reg { apps = insert app e' reg.apps }));
        entry = entry;
        entry_after = coerced_entry st.valid e';
        loaded = l;
        was_there = found;
        loads =
            st.load-save _ w'.storage (insert-IsSorted app e' reg.apps sorted)
              (named reg entry e' l found) saved;
        apps = coerced-insert st.valid app e' reg clean.texts;
        cleared_services =
            Cleared-coerced st.valid svcs entry e'
              (coerced_entry-of st.valid reg app entry clean.texts found) done;
      }

  detach_saved_lem :
      (reg : Registry) (entry : AppEntry) (r : Result AppEntry × World st)
      → st.load w.storage ≡ ok reg
      → lookup app reg.apps ≡ some entry
      → IsSorted reg.apps
      → AllDone svcs entry r.0 × (r.1.storage ≡ w.storage)
      → DetachOutcome st app svcs w (detach_saved h app reg r)
  unfolding detach_saved
  detach_saved_lem reg entry (err e, w') l found sorted (done, same) = ap st.load same
  detach_saved_lem reg entry (ok e', w') l found sorted (done, same) =
      save_lem reg entry e' w' _ l found sorted same done refl

  detach_checked_lem :
      (checks : Result (Registry × AppEntry))
      → detach_checks h app svcs w ≡ checks
      → ((reg : Registry) → st.load w.storage ≡ ok reg → IsSorted reg.apps)
      → DetachOutcome st app svcs w (detach_checked h app svcs checks w)
  unfolding detach_checked
  detach_checked_lem (err e) c sorted = refl
  detach_checked_lem (ok (reg, entry)) c sorted =
      let (l, found) = detach_checks_ok reg entry c in
      detach_saved_lem reg entry (detach_all h app svcs entry w) l found (sorted reg l)
        (detach_all_lem h app svcs entry w)

  -- `DetachServices` on a registry that is in order: with an error, what is loaded is what was loaded
  -- before. Without one, the app was in the registry, its entry has lost the configurations of the
  -- services that were listed and kept everything else, and every other app is as it was.
  pub detach_services_lem :
      ((reg : Registry) → st.load w.storage ≡ ok reg → IsSorted reg.apps)
      → DetachOutcome st app svcs w (detach_services h app svcs w)
  unfolding detach_services
  detach_services_lem sorted = detach_checked_lem (detach_checks h app svcs w) refl sorted
