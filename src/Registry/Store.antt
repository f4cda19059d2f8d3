-- ===== src/Registry/Store.antt =====
-- internal/registry/registry.go and store_save.go: the registry file. A path is the list of its
-- components, the last one first: filepath.Dir is the tail, filepath.Join puts a name in front.
pub mod Crypto
pub mod SaveLoad
pub mod RoundTrip
pub mod Apps
use infra_shelf.Common.{
  ℕ, Bytes, Bool, true, false, ◌&&◌, ◌||◌, not, List, [], ◌∷◌, ◌++◌, Option, none, some, Result, ok,
  err, Error, ◌>>=◌, unsupported_format, invalid_payload, invalid_nonce, secret_required,
  decode_failed, open_failed, io_failed, leb, ◌==◌, ◌+◌, suc, zero, if◌then◌else◌,
}
use infra_shelf.Common.Text.{codes, str_eq, is_empty, trim_space}
use infra_shelf.Common.Dict
use infra_shelf.Common.Dict.{Dict}
use infra_shelf.Registry.{AppEntry, Registry, App}
use infra_shelf.Registry.Dotenv.{parse_dotenv}
use Crypto.{Codec, Envelope}

abbrev pub FilePath : Type 0
FilePath = List Bytes

unfoldable pub path_eq : FilePath → FilePath → Bool
unfolding str_eq
path_eq [] [] = true
path_eq [] (b ∷ q) = false
path_eq (a ∷ p) [] = false
path_eq (a ∷ p) (b ∷ q) = str_eq a b && path_eq p q

-- What stands at a path: nothing, something that cannot be read, or a file.
pub data Node (D : Type 0) : Type 0 where
  absent unreadable : Node D
  content : D → Node D

-- How the next atomic write fares.
pub data Fault : Type 0 where
  no_fault mkdir_fault write_fault rename_fault : Fault

-- The machine, as far as the store sees it: the files, the environment, the faults that the
-- coming writes meet (none when the list has run out), and how many nonces have been drawn.
pub record Disk (D : Type 0) : Type 0 where
  pub files : FilePath → Node D
  pub env : Dict Bytes
  pub faults : List Fault
  pub drawn : ℕ

abbrev pub update {ℓ} : {A : Type ℓ} → (FilePath → A) → FilePath → A → FilePath → A
update files p n q = if path_eq p q then n else files q

abbrev pub next_fault : List Fault → Fault
next_fault [] = no_fault
next_fault (f ∷ fs) = f

abbrev later_faults : List Fault → List Fault
later_faults [] = []
later_faults (f ∷ fs) = fs

-- `os.Getenv`: an unset variable is the empty text.
abbrev pub get_or_empty : Bytes → Dict Bytes → Bytes
get_or_empty key env = elim (Dict.lookup key env) [ none ↦ [] | some value ↦ value ]

abbrev secret_keys : List Bytes
secret_keys = codes "INFRA_SHELF_SECRET" ∷ codes "INFRA_SHELF_REGISTRY_SECRET" ∷ []

-- `for _, key := range … { if value := …; value != "" { return value } }`
first_value : List Bytes → Dict Bytes → Option Bytes
first_value [] env = none
first_value (key ∷ keys) env =
    let value = trim_space (get_or_empty key env) in
    let rest = first_value keys env in if is_empty value then rest else some value

-- The environment comes before the .env file.
find_secret : Dict Bytes → Dict Bytes → Result Bytes
unfolding first_value
find_secret env dotenv = elim (first_value secret_keys env) [
  | some value ↦ ok value
  | none ↦ elim (first_value secret_keys dotenv) [
    | some value ↦ ok value
    | none ↦ err secret_required
  ]
]

abbrev pub dotenv_name : Bytes
dotenv_name = codes ".env"

abbrev tmp_path : FilePath → FilePath
tmp_path [] = codes ".tmp" ∷ []
tmp_path (name ∷ dir) = (name ++ codes ".tmp") ∷ dir

abbrev parent : FilePath → FilePath
parent [] = []
parent (name ∷ dir) = dir

-- `if reg.Version == 0 { reg.Version = 1 }`
abbrev pub stored : Registry → Registry
stored reg = record reg { version = if reg.version == 0 then 1 else reg.version }

abbrev pub app_of : Bytes → AppEntry → App
app_of name entry = record { name = name; created_at = entry.created_at; entry = entry }

module _ (c : Codec) where
  -- `if err == nil { return parseDotenv(…) }`, or what is found further up
  dotenv_or : Node c.Doc → Dict Bytes → Dict Bytes
  dotenv_or (content d) up = parse_dotenv (c.text d)
  dotenv_or _ up = up

  -- The walk from a directory up to the root: the first .env file that can be read counts.
  pub load_dotenv : (FilePath → Node c.Doc) → FilePath → Dict Bytes
  load_dotenv files [] = dotenv_or (files (dotenv_name ∷ [])) []
  load_dotenv files (d ∷ ds) = dotenv_or (files (dotenv_name ∷ d ∷ ds)) (load_dotenv files ds)

  pub registry_secret : Disk c.Doc → FilePath → Result Bytes
  unfolding find_secret
  registry_secret disk dir = find_secret disk.env (load_dotenv disk.files dir)

  abbrev required {ℓ} : {A : Type ℓ} → Option A → Error → Result A
  required none e = err e
  required (some a) e = ok a

  -- `secret` is the outcome of `registrySecret`, which is asked for after the format is known.
  decrypt_registry_content : Envelope c.Text → Result Bytes → Result c.Doc
  decrypt_registry_content file secret =
      if not (str_eq file.algorithm (codes "AES-256-GCM"))
        || not (str_eq file.kdf (codes "SHA-256"))
      then err (unsupported_format file.algorithm file.kdf)
      else do
        key ← secret
        payload ← required (c.decode64 file.ciphertext) decode_failed
        if leb (c.size payload) 16 then err invalid_payload else do
          nonce ← required (c.decode64 file.nonce) decode_failed
          if not (c.size nonce == 12)
              then err invalid_nonce
              else required (c.unseal key nonce payload) open_failed

  parse_registry : c.Doc → Result Registry
  parse_registry d = required (c.unmarshal_registry d) decode_failed

  -- `err == nil && encrypted.Encrypted`
  load_content : Option (Envelope c.Text) → c.Doc → Result Bytes → Result Registry
  load_content none d secret = parse_registry d
  load_content (some file) d secret =
      if file.encrypted
      then (do plain ← decrypt_registry_content file secret; parse_registry plain)
      else parse_registry d

  load_node : Node c.Doc → Result Bytes → Result Registry
  load_node absent secret = ok (record { version = 1; apps = [] })
  load_node unreadable secret = err (io_failed (codes "read"))
  load_node (content d) secret = load_content (c.unmarshal_envelope d) d secret

  pub load : FilePath → Disk c.Doc → Result Registry
  unfolding load_node
  load path disk = load_node (disk.files path) (registry_secret disk (parent path))

  encrypt_registry : Registry → Bytes → ℕ → Envelope c.Text
  encrypt_registry reg secret drawn = record {
    version = 2;
    encrypted = true;
    algorithm = codes "AES-256-GCM";
    kdf = codes "SHA-256";
    nonce = c.encode64 (c.nonce drawn);
    ciphertext = c.encode64 (c.seal secret (c.nonce drawn) (c.marshal_compact reg));
  }

  -- A sibling file is written and renamed into place; a failed rename removes it.
  write_and_rename : Fault → FilePath → c.Doc → Disk c.Doc → Result (Unit {0}) × Disk c.Doc
  write_and_rename mkdir_fault path payload disk = (err (io_failed (codes "mkdir")), disk)
  write_and_rename write_fault path payload disk = (
    err (io_failed (codes "write")),
    record disk { files = update disk.files (tmp_path path) unreadable },
  )
  write_and_rename rename_fault path payload disk = (
    err (io_failed (codes "rename")),
    record disk { files = update disk.files (tmp_path path) absent },
  )
  write_and_rename no_fault path payload disk = (
    ok tt,
    record disk {
      files = update (update disk.files (tmp_path path) absent) path (content payload);
    },
  )

  pub atomic_write : FilePath → c.Doc → Disk c.Doc → Result (Unit {0}) × Disk c.Doc
  unfolding write_and_rename
  atomic_write path payload disk =
      write_and_rename (next_fault disk.faults) path payload
        (record disk { faults = later_faults disk.faults })

  write_encrypted : FilePath → Registry → Bytes → Disk c.Doc → Result (Unit {0}) × Disk c.Doc
  write_encrypted path reg secret disk =
      atomic_write path (c.marshal_envelope (encrypt_registry reg secret disk.drawn))
        (record disk { drawn = disk.drawn + 1 })

  -- The file is written in plain text only where no secret is found.
  save_with : Result Bytes → FilePath → Registry → Disk c.Doc → Result (Unit {0}) × Disk c.Doc
  save_with (err _) path reg disk = atomic_write path (c.marshal_indent reg) disk
  save_with (ok secret) path reg disk = write_encrypted path reg secret disk

  pub save : FilePath → Registry → Disk c.Doc → Result (Unit {0}) × Disk c.Doc
  unfolding save_with
  save path reg disk = save_with (registry_secret disk (parent path)) path (stored reg) disk

  encrypt_loaded : Bytes → Result Registry → FilePath → Disk c.Doc → Result (Unit {0}) × Disk c.Doc
  encrypt_loaded secret (err e) path disk = (err e, disk)
  encrypt_loaded secret (ok reg) path disk = write_encrypted path reg secret disk

  encrypt_with : Result Bytes → FilePath → Disk c.Doc → Result (Unit {0}) × Disk c.Doc
  unfolding encrypt_loaded
  encrypt_with (err _) path disk = (err secret_required, disk)
  encrypt_with (ok secret) path disk = encrypt_loaded secret (load path disk) path disk

  pub encrypt_in_place : FilePath → Disk c.Doc → Result (Unit {0}) × Disk c.Doc
  unfolding encrypt_with
  encrypt_in_place path disk = encrypt_with (registry_secret disk (parent path)) path disk

  upsert_loaded :
      Result Registry → FilePath → Bytes → AppEntry → Disk c.Doc → Result (Unit {0}) × Disk c.Doc
  upsert_loaded (err e) path name entry disk = (err e, disk)
  upsert_loaded (ok reg) path name entry disk =
      save path (record reg { apps = Dict.insert name entry reg.apps }) disk

  pub upsert_app : FilePath → Bytes → AppEntry → Disk c.Doc → Result (Unit {0}) × Disk c.Doc
  unfolding upsert_loaded
  upsert_app path name entry disk = upsert_loaded (load path disk) path name entry disk

  -- Missing entries are not an error, and nothing is written then.
  delete_found :
      Option AppEntry → Registry → FilePath → Bytes → Disk c.Doc → Result (Unit {0}) × Disk c.Doc
  delete_found none reg path name disk = (ok tt, disk)
  delete_found (some _) reg path name disk =
      save path (record reg { apps = Dict.delete name reg.apps }) disk

  delete_loaded : Result Registry → FilePath → Bytes → Disk c.Doc → Result (Unit {0}) × Disk c.Doc
  unfolding delete_found
  delete_loaded (err e) path name disk = (err e, disk)
  delete_loaded (ok reg) path name disk =
      delete_found (Dict.lookup name reg.apps) reg path name disk

  pub delete_app : FilePath → Bytes → Disk c.Doc → Result (Unit {0}) × Disk c.Doc
  unfolding delete_loaded
  delete_app path name disk = delete_loaded (load path disk) path name disk

  -- `GetApp`: no app is `none`.
  pub get_app : FilePath → Bytes → Disk c.Doc → Result (Option App)
  get_app path name disk = do
    reg ← load path disk
    ok (elim (Dict.lookup name reg.apps) [ none ↦ none | some entry ↦ some (app_of name entry) ])
