-- ===== src/Examples/Fixtures.antt =====
-- A codec, a machine, a registry and a disk on which the theorems are tried.
use infra_shelf.Common.{
  ℕ, Bytes, Bool, true, false, [], ◌∷◌, Option, none, some, ok, ◌≡◌, refl, subst, arith, ◌+◌,
  if◌then◌else◌,
}
use infra_shelf.Common.Text.{codes, str_eq, str_eq_refl}
use infra_shelf.Common.Dict.{IsSorted}
use infra_shelf.Registry.{Registry, AppEntry, PostgresConfig, empty_services}
use infra_shelf.Registry.Coerced.{IsNamed, IsClean}
use infra_shelf.Examples.Ascii.{
  ascii, ascii_same, ascii_keys, read_registry, read_registry_named, read_registry-IsClean,
}
use infra_shelf.Registry.Storage.{Storage, file_storage}
use infra_shelf.Registry.Store.{FilePath, content, absent, Disk, update, load, path_eq}
use infra_shelf.Registry.Store.Crypto.{Codec, Envelope}
use infra_shelf.Registry.Store.RoundTrip.{load_clear}
use infra_shelf.Machine.{Host, Machine}
use infra_shelf.Engine.{World}

-- Documents as what they say, read with all texts coerced to ASCII: a sealed document carries its key.
pub data Doc : Type 0 where
  registry_doc : Registry → Doc
  envelope_doc : ℕ → Bool → Bytes → Bytes → Doc → Doc → Doc
  sealed : Bytes → Doc → Doc → Doc
  nonce_doc : ℕ → Doc

abbrev pub size_of : Doc → ℕ
size_of (registry_doc r) = 1
size_of (envelope_doc v e a k n t) = 1
size_of (sealed k n d) = size_of d + 16
size_of (nonce_doc n) = 12

abbrev pub as_registry : Doc → Option Registry
as_registry (registry_doc r) = read_registry r
as_registry _ = none

abbrev pub envelope_of : Envelope Doc → Doc
envelope_of e = envelope_doc e.version e.encrypted e.algorithm e.kdf e.nonce e.ciphertext

abbrev pub as_envelope : Doc → Option (Envelope Doc)
as_envelope (envelope_doc v e a k n t) =
    some (record { version = v; encrypted = e; algorithm = a; kdf = k; nonce = n; ciphertext = t })
as_envelope _ = none

abbrev pub open_sealed : Bytes → Doc → Option Doc
open_sealed key (sealed k n d) = if str_eq key k then some d else none
open_sealed key _ = none

pub open_own : (k : Bytes) (n d : Doc) → open_sealed k (sealed k n d) ≡ some d
open_own k n d = rw (str_eq_refl k) refl

pub no_envelope :
    (r : Registry) (e : Envelope Doc) → as_envelope (registry_doc r) ≡ some e → e.encrypted ≡ false
no_envelope r e h = absurd (cc h)

pub as_registry-IsClean : (d : Doc) (r : Registry) → as_registry d ≡ some r → IsClean ascii r
as_registry-IsClean (registry_doc q) r h = read_registry-IsClean q r h
as_registry-IsClean (envelope_doc v e a k n t) r h = absurd (cc h)
as_registry-IsClean (sealed k n d) r h = absurd (cc h)
as_registry-IsClean (nonce_doc n) r h = absurd (cc h)

abbrev pub plain_codec : Codec
plain_codec = record {
  Doc = Doc;
  Text = Doc;
  size = size_of;
  text = λ d. [];
  marshal_indent = registry_doc;
  marshal_compact = registry_doc;
  unmarshal_registry = as_registry;
  marshal_envelope = envelope_of;
  unmarshal_envelope = as_envelope;
  encode64 = λ d. d;
  decode64 = λ d. some d;
  seal = sealed;
  unseal = λ k n d. open_sealed k d;
  nonce = nonce_doc;
  valid = ascii;
  valid-ascii = ascii_same;
  unmarshal-marshal_indent = λ r sorted named. read_registry_named r named;
  unmarshal-marshal_compact = λ r sorted named. read_registry_named r named;
  unmarshal-IsClean = as_registry-IsClean;
  unmarshal-marshal_envelope = λ e n d a k p q. refl;
  registry_not_encrypted = no_envelope;
  decode64-encode64 = λ d. refl;
  unseal-seal = λ k n d h. open_own k n d;
  size-seal = λ k n d h. refl;
  size-marshal_compact = λ r. omega arith;
  size-nonce = λ n. refl;
}

abbrev pub shop_postgres : PostgresConfig
shop_postgres = record {
  database = codes "shop";
  username = codes "shop";
  password = codes "s3cret";
}

-- An app with a database.
abbrev pub shop_entry : AppEntry
shop_entry = record {
  created_at = codes "2024-01-01T00:00:00.000Z";
  environment = [];
  signoz_service_name = [];
  services = record empty_services { postgres_config = some shop_postgres };
}

abbrev pub one_app : Registry
one_app = record { version = 1; apps = (codes "shop", shop_entry) ∷ [] }

abbrev pub one_app-IsSorted : IsSorted one_app.apps
one_app-IsSorted = (tt, tt)

pub one_app-IsNamed : IsNamed ascii one_app.apps
unfolding str_eq
one_app-IsNamed = ascii_keys one_app.apps refl

abbrev pub apps_file : Bytes
apps_file = codes "apps.json"

abbrev pub home : FilePath
home = codes "shelf" ∷ []

-- The registry stands in its file, and there is a secret.
abbrev pub disk : Disk Doc
disk = record {
  files = update (λ p. absent) (apps_file ∷ home) (content (registry_doc one_app));
  env = (codes "INFRA_SHELF_SECRET", codes "key") ∷ [];
  faults = [];
  drawn = 0;
}

pub not_env : str_eq apps_file (codes ".env") ≡ false
unfolding str_eq
not_env = refl

abbrev pub storage : Storage
storage = file_storage plain_codec apps_file home not_env

pub disk_loads : load plain_codec (apps_file ∷ home) disk ≡ ok one_app
unfolding path_eq str_eq
disk_loads =
    load_clear plain_codec (apps_file ∷ home) disk one_app refl one_app-IsSorted one_app-IsNamed

-- A docker that answers every command.
abbrev pub host : Host
host = record {
  answer = λ before call. ok (codes "OK");
  running = λ before name. true;
  random = λ n. n;
  created_at = λ before. codes "2024-01-02T00:00:00.000Z";
  timestamp = λ before. codes "2024-01-02T00-00-00";
  writable = λ before path. true;
  readable = λ before path. true;
  env =
      (codes "POSTGRES_PASSWORD", codes "root")
      ∷ (codes "POSTGRES_USER", codes "root")
      ∷ (codes "REDIS_PASSWORD", codes "root")
      ∷ [];
  dotenv_files = [];
  parse_json = λ s. none;
  print_json = λ j. [];
  format_any = λ j. [];
}

abbrev pub machine : Machine
machine = record { calls = []; drawn = 0; files = [] }

abbrev pub world : World storage
world = record { storage = disk; machine = machine; reports = [] }

pub loaded-IsSorted : (reg : Registry) → storage.load world.storage ≡ ok reg → IsSorted reg.apps
loaded-IsSorted reg h =
    let same : one_app ≡ reg = cc (disk_loads, h) in
    subst (λ r. IsSorted r.apps) same one_app-IsSorted
