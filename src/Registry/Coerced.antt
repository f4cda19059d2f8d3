-- ===== src/Registry/Coerced.antt =====
-- internal/registry/store_save.go: what JSON makes of the texts of a registry. encoding/json writes
-- each string coerced to valid UTF-8; `valid` is that coercion.
use infra_shelf.Common.{
  Bytes, Bool, true, false, [], ◌∷◌, subst, Option, none, some, ◌≡◌, refl, ap, ◌∙◌, sym,
  if◌then◌else◌, arith, Bool-cases, inl, inr,
}
use infra_shelf.Common.Text.{str_eq, str_eq_iff}
use infra_shelf.Common.Dict.{
  Dict, lookup, insert, delete, map_option, map_values, lookup-map_values, lookup-insert,
  lookup-delete,
}
use infra_shelf.Registry.{
  PostgresConfig, RedisConfig, RabbitMqConfig, AiStorConfig, MongoDbConfig, SignozConfig, Services,
  AppEntry, Registry,
}

pub map_option-if :
    {A B : Type 0} (f : A → B) (b : Bool) (x y : Option A)
    → map_option f (if b then x else y) ≡ (if b then map_option f x else map_option f y)
map_option-if f true x y = refl
map_option-if f false x y = refl

module _ (valid : Bytes → Bytes) where
  abbrev pub coerced_postgres : PostgresConfig → PostgresConfig
  coerced_postgres r = record {
    database = valid r.database;
    username = valid r.username;
    password = valid r.password;
  }

  abbrev pub coerced_redis : RedisConfig → RedisConfig
  coerced_redis r = record {
    username = valid r.username;
    password = valid r.password;
    prefix = valid r.prefix;
  }

  abbrev pub coerced_rabbitmq : RabbitMqConfig → RabbitMqConfig
  coerced_rabbitmq r = record {
    vhost = valid r.vhost;
    username = valid r.username;
    password = valid r.password;
  }

  abbrev pub coerced_aistor : AiStorConfig → AiStorConfig
  coerced_aistor r = record {
    bucket = valid r.bucket;
    access_key = valid r.access_key;
    secret_key = valid r.secret_key;
    endpoint = valid r.endpoint;
  }

  abbrev pub coerced_mongodb : MongoDbConfig → MongoDbConfig
  coerced_mongodb r = record {
    database = valid r.database;
    username = valid r.username;
    password = valid r.password;
  }

  abbrev pub coerced_signoz : SignozConfig → SignozConfig
  coerced_signoz r = record {
    service_name = valid r.service_name;
    environment = valid r.environment;
  }

  abbrev pub coerced_services : Services → Services
  coerced_services r = record {
    postgres_config = map_option coerced_postgres r.postgres_config;
    redis_config = map_option coerced_redis r.redis_config;
    rabbitmq_config = map_option coerced_rabbitmq r.rabbitmq_config;
    aistor_config = map_option coerced_aistor r.aistor_config;
    mongodb_config = map_option coerced_mongodb r.mongodb_config;
    signoz_config = map_option coerced_signoz r.signoz_config;
  }

  abbrev pub coerced_entry : AppEntry → AppEntry
  coerced_entry e = record {
    created_at = valid e.created_at;
    environment = valid e.environment;
    signoz_service_name = valid e.signoz_service_name;
    services = coerced_services e.services;
  }

  abbrev pub coerced : Registry → Registry
  coerced reg = record { version = reg.version; apps = map_values coerced_entry reg.apps }

  -- The names of the apps are valid UTF-8.
  abbrev pub IsNamed : Dict AppEntry → Type 0
  IsNamed apps = (k : Bytes) (e : AppEntry) → lookup k apps ≡ some e → valid k ≡ k

  -- All texts of the registry are valid UTF-8, as those of a registry that JSON gave are.
  pub record IsClean (reg : Registry) : Type 0 where
    pub texts : coerced reg ≡ reg
    pub names : IsNamed reg.apps

  pub empty-IsClean : IsClean (record { version = 1; apps = [] })
  unfolding lookup
  empty-IsClean = record { texts = refl; names = λ k e f. absurd (cc f) }

  pub insert-IsNamed :
      (name : Bytes) (entry : AppEntry) (apps : Dict AppEntry)
      → valid name ≡ name
      → IsNamed apps
      → IsNamed (insert name entry apps)
  insert-IsNamed name entry apps v h k e f = elim (Bool-cases (str_eq name k)) [
    | inl same ↦ subst (λ n. valid n ≡ n) ((str_eq_iff name k).0 same) v
    | inr other ↦ h k e (rest other)
  ]
    where
      rest : str_eq name k ≡ false → lookup k apps ≡ some e
      rest other = sym (lookup-insert name k entry apps ∙ rw other refl) ∙ f

  pub delete-IsNamed :
      (name : Bytes) (apps : Dict AppEntry) → IsNamed apps → IsNamed (delete name apps)
  delete-IsNamed name apps h k e f = h k e (ground (arith, lookup-delete name k apps, f))

  -- The entries of a clean registry are what JSON makes of them.
  pub clean_lookup :
      (reg : Registry) (k : Bytes)
      → coerced reg ≡ reg
      → map_option coerced_entry (lookup k reg.apps) ≡ lookup k reg.apps
  clean_lookup reg k h =
      sym (lookup-map_values coerced_entry k reg.apps) ∙ ap (λ r. lookup k r.apps) h

  pub map_values-insert :
      (name : Bytes) (entry : AppEntry) (apps : Dict AppEntry) (k : Bytes)
      → lookup k (map_values coerced_entry (insert name entry apps)) ≡ (
          if str_eq name k
          then some (coerced_entry entry)
          else lookup k (map_values coerced_entry apps))
  map_values-insert name entry apps k =
      lookup-map_values coerced_entry k (insert name entry apps)
      ∙ ap (map_option coerced_entry) (lookup-insert name k entry apps)
      ∙ map_option-if coerced_entry (str_eq name k) (some entry) (lookup k apps)
      ∙ ap (λ o. if str_eq name k then some (coerced_entry entry) else o)
          (sym (lookup-map_values coerced_entry k apps))

  -- A new entry among those of a clean registry.
  pub coerced-insert :
      (name : Bytes) (entry : AppEntry) (reg : Registry)
      → coerced reg ≡ reg
      → (k : Bytes)
      → lookup k (map_values coerced_entry (insert name entry reg.apps))
        ≡ (if str_eq name k then some (coerced_entry entry) else lookup k reg.apps)
  coerced-insert name entry reg h k =
      map_values-insert name entry reg.apps k
      ∙ ap (λ r. if str_eq name k then some (coerced_entry entry) else lookup k r.apps) h

  pub coerced-delete :
      (name : Bytes) (reg : Registry)
      → coerced reg ≡ reg
      → (k : Bytes)
      → lookup k (map_values coerced_entry (delete name reg.apps))
        ≡ (if str_eq name k then none else lookup k reg.apps)
  coerced-delete name reg h k =
      lookup-map_values coerced_entry k (delete name reg.apps)
      ∙ ap (map_option coerced_entry) (lookup-delete name k reg.apps)
      ∙ map_option-if coerced_entry (str_eq name k) none (lookup k reg.apps)
      ∙ ap (λ o. if str_eq name k then none else o) (clean_lookup reg k h)

-- A coercion that leaves what it gave leaves a registry that it gave.
module _ {A : Type 0} (f : A → A) (again : (a : A) → f (f a) ≡ f a) where
  map_option_again : (o : Option A) → map_option f (map_option f o) ≡ map_option f o
  map_option_again none = refl
  map_option_again (some a) = ap some (again a)

  map_values_again : (m : Dict A) → map_values f (map_values f m) ≡ map_values f m
  map_values_again [] = refl
  map_values_again ((k, a) ∷ m) = cc (again a, map_values_again m)

module _ (valid : Bytes → Bytes) (again : (s : Bytes) → valid (valid s) ≡ valid s) where
  coerced_entry-coerced_entry :
      (e : AppEntry) → coerced_entry valid (coerced_entry valid e) ≡ coerced_entry valid e
  coerced_entry-coerced_entry e = cc (
    again e.created_at,
    again e.environment,
    again e.signoz_service_name,
    map_option_again (coerced_postgres valid)
        (λ a. cc (again a.database, again a.username, again a.password)) e.services.postgres_config,
    map_option_again (coerced_redis valid)
        (λ a. cc (again a.username, again a.password, again a.prefix)) e.services.redis_config,
    map_option_again (coerced_rabbitmq valid)
        (λ a. cc (again a.vhost, again a.username, again a.password)) e.services.rabbitmq_config,
    map_option_again (coerced_aistor valid)
        (λ a. cc (again a.bucket, again a.access_key, again a.secret_key, again a.endpoint))
        e.services.aistor_config,
    map_option_again (coerced_mongodb valid)
        (λ a. cc (again a.database, again a.username, again a.password)) e.services.mongodb_config,
    map_option_again (coerced_signoz valid) (λ a. cc (again a.service_name, again a.environment))
        e.services.signoz_config,
  )

  pub coerced-coerced : (reg : Registry) → coerced valid (coerced valid reg) ≡ coerced valid reg
  coerced-coerced reg =
      ap (λ m. record reg { apps = m })
        (map_values_again (coerced_entry valid) coerced_entry-coerced_entry reg.apps)
