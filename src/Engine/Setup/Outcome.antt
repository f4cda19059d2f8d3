-- ===== src/Engine/Setup/Outcome.antt =====
-- The whole of `SetupApp`: what it refuses, and what it leaves when it goes ahead.
use infra_shelf.Common.{
  Bytes, true, List, [], ◌∷◌, none, some, Result, ok, err, ◌≡◌, refl, arith, all, All, subst, ◌<◌,
}
use infra_shelf.Common.Text.Elem.{IsDistinct}
use infra_shelf.Common.Dict.{lookup, IsSorted}
use infra_shelf.Registry.{Registry}
use infra_shelf.Registry.Storage.{Storage}
use infra_shelf.Registry.Names.{app_name_pattern, is_name_char, validate_app_name}
use infra_shelf.Envspec.{Target, Options, build_setup_targets}
use infra_shelf.Envspec.Laws.{IsEnvName}
use infra_shelf.Envspec.Targets.{target_names, setup_names, build_setup_targets_valid}
use infra_shelf.Machine.{Host, Machine, is_running}
use infra_shelf.Engine.{World, container_check, container_of}
use infra_shelf.Engine.Targets.{TargetResults}
use infra_shelf.Engine.Setup.{
  SetupOptions, setup_loop, check_new, setup_checks, setup_checked, setup_app,
}
use infra_shelf.Engine.Setup.Saved.{LoopDone, InStep-loaded, setup_loop_lem}

abbrev pub setup_envs : SetupOptions → Options
setup_envs opts = record { envs = opts.envs; env = opts.env }

-- No app of the registry has the name.
abbrev pub IsFree : Registry → Bytes → Type 0
IsFree reg n = lookup n reg.apps ≡ none

check_new_lem :
    (ts : List Target) (reg : Registry)
    → check_new ts reg ≡ ok tt
    → All (IsFree reg) (target_names ts)
unfolding check_new
check_new_lem [] reg h = tt
check_new_lem (t ∷ ts) reg h = ground (arith, check_new_lem ts reg)

name_chars-ascii : (s : Bytes) → all is_name_char s ≡ true → All (λ b. b < 128) s
name_chars-ascii [] h = tt
name_chars-ascii (c ∷ s) h = (ground arith, name_chars-ascii s (ground arith))

app_name_pattern-ascii : (s : Bytes) → app_name_pattern s ≡ true → All (λ b. b < 128) s
unfolding app_name_pattern
app_name_pattern-ascii [] h = tt
app_name_pattern-ascii (c ∷ s) h = (ground arith, name_chars-ascii s (ground arith))

module _ (h : Host) where
  container_check_lem :
      (svcs : List Bytes) (m : Machine)
      → container_check h svcs m ≡ ok tt
      → All (λ s. is_running h m (container_of s) ≡ true) svcs
  unfolding container_check
  container_check_lem [] m e = tt
  container_check_lem (s ∷ svcs) m e = ground (arith, container_check_lem svcs m)

module _ (st : Storage) (h : Host) (app : Bytes) (opts : SetupOptions) (w : World st) where
  abbrev Passed : Registry → Type 0
  Passed reg =
      (app_name_pattern app ≡ true)
      × (st.load w.storage ≡ ok reg)
      × All (IsFree reg) (setup_names app (setup_envs opts))
      × All (λ s. is_running h w.machine (container_of s) ≡ true) opts.services

  setup_checks_ok : (reg : Registry) → setup_checks h app opts w ≡ ok reg → Passed reg
  unfolding setup_checks validate_app_name
  setup_checks_ok reg e = ground (
    arith,
    check_new_lem (build_setup_targets app (setup_envs opts)) reg,
    container_check_lem h opts.services w.machine,
  )

  -- the names of apps are ASCII texts
  names_valid :
      (ns : List Bytes) → All (λ n. app_name_pattern n ≡ true) ns → All (λ n. st.valid n ≡ n) ns
  names_valid [] h = tt
  names_valid (n ∷ ns) (good, rest) =
      (st.valid-ascii n (app_name_pattern-ascii n good), names_valid ns rest)

  -- What `SetupApp` has done when it goes ahead.
  pub record SetUp (out : TargetResults) (s : st.State) : Type 0 where
    pub registry : Registry
    pub passed : Passed registry
    pub done : LoopDone st (setup_names app (setup_envs opts)) registry [] out s

  abbrev pub SetupOutcome : Result Registry → TargetResults × World st → Type 0
  SetupOutcome (err e) r = r ≡ (record { results = []; error = some e }, w)
  SetupOutcome (ok reg) r = SetUp r.0 r.1.storage

  setup_checked_lem :
      (checks : Result Registry)
      → setup_checks h app opts w ≡ checks
      → All IsEnvName opts.envs
      → IsDistinct opts.envs
      → ((reg : Registry) → st.load w.storage ≡ ok reg → IsSorted reg.apps)
      → SetupOutcome checks (setup_checked h app opts checks w)
  unfolding setup_checked
  setup_checked_lem (err e) c valid distinct sorted = refl
  setup_checked_lem (ok reg) c valid distinct sorted =
      let passed = setup_checks_ok reg c in
      let good = build_setup_targets_valid app (setup_envs opts) passed.0 valid distinct in
      let out = setup_loop h opts (build_setup_targets app (setup_envs opts)) reg [] w in
      record {
        registry = reg;
        passed = passed;
        done =
            subst (λ r. LoopDone st (setup_names app (setup_envs opts)) r [] out.0 out.1.storage)
              (st.load-IsClean w.storage reg passed.1).texts
              (setup_loop_lem h opts (build_setup_targets app (setup_envs opts)) reg [] w
                (InStep-loaded st reg w.storage passed.1 (sorted reg passed.1))
                (names_valid (setup_names app (setup_envs opts)) good.0) good.1);
      }

  -- `SetupApp` with environments that are valid and distinct, on a registry that is in order: if one
  -- of its checks fails, that is its error and nothing has changed. Otherwise the name was valid, no
  -- target was an app, and the containers were running; then, also when a save fails on the way, the
  -- registry can be loaded, the apps that are no targets are as they were, each result that is
  -- returned is in the registry with its entry, each text as JSON keeps it (coerced to valid UTF-8),
  -- and without an error there is one for each target.
  pub setup_app_lem :
      All IsEnvName opts.envs
      → IsDistinct opts.envs
      → ((reg : Registry) → st.load w.storage ≡ ok reg → IsSorted reg.apps)
      → SetupOutcome (setup_checks h app opts w) (setup_app h app opts w)
  unfolding setup_app
  setup_app_lem valid distinct sorted =
      setup_checked_lem (setup_checks h app opts w) refl valid distinct sorted
