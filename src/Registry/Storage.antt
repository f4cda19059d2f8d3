-- ===== src/Registry/Storage.antt =====
-- What the engine needs of the registry store: an interface that the file store fills.
use infra_shelf.Common.{◌<◌, All, Bytes, Result, ok, err, Error, ◌≡◌, false, ◌∷◌}
use infra_shelf.Common.Text.{str_eq}
use infra_shelf.Common.Dict.{IsSorted}
use infra_shelf.Registry.{Registry}
use infra_shelf.Registry.Coerced.{coerced, IsNamed, IsClean}
use infra_shelf.Registry.Store.{FilePath, Disk, dotenv_name, stored, load, save}
use infra_shelf.Registry.Store.Crypto.{Codec}
use infra_shelf.Registry.Store.RoundTrip.{save_lem, load-IsClean}

pub record Storage : Type 1 where
  pub State : Type 0
  pub load : State → Result Registry
  pub save : Registry → State → Result (Unit {0}) × State
  -- what a text becomes where it is saved; ASCII texts stay
  pub valid : Bytes → Bytes
  pub valid-ascii : (s : Bytes) → All (λ b. b < 128) s → valid s ≡ s
  -- the texts of what is loaded are valid
  pub load-IsClean : (s : State) (reg : Registry) → load s ≡ ok reg → IsClean valid reg
  -- what was saved is loaded, its texts as they are saved
  pub load-save :
      (reg : Registry) (s : State)
      → IsSorted reg.apps
      → IsNamed valid reg.apps
      → (save reg s).0 ≡ ok tt
      → load (save reg s).1 ≡ ok (coerced valid (stored reg))
  -- a failed save changes nothing
  pub load-save_failed :
      (reg : Registry) (s : State) (e : Error)
      → IsSorted reg.apps
      → IsNamed valid reg.apps
      → (save reg s).0 ≡ err e
      → load (save reg s).1 ≡ load s

-- The registry file fills the interface, at any path but that of a .env file.
module _ (c : Codec) (file : Bytes) (dir : FilePath)
    (not_env : str_eq file dotenv_name ≡ false) where
  abbrev pub file_storage : Storage
  file_storage = record {
    State = Disk c.Doc;
    load = load c (file ∷ dir);
    save = save c (file ∷ dir);
    valid = c.valid;
    valid-ascii = c.valid-ascii;
    load-IsClean = λ s reg h. load-IsClean c (file ∷ dir) s reg h;
    load-save = λ reg s sorted named h. (save_lem c file dir not_env reg s sorted named).done tt h;
    load-save_failed =
        λ reg s e sorted named h. (save_lem c file dir not_env reg s sorted named).failed e h;
  }
