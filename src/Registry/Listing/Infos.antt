-- ===== src/Registry/Listing/Infos.antt =====
-- internal/registry/registry.go: what `buildServiceInfos` tells of each service.
use infra_shelf.Common.{
  Bytes, Bool, ◌&&◌, List, [], ◌∷◌, map, filter, Option, none, some, ◌≡◌, refl, arith,
  if◌then◌else◌, Bool-cases, inl, inr,
}
use infra_shelf.Common.Text.{codes, str_eq}
use infra_shelf.Common.Dict.{Dict, insert, lookup, value_of, lookup-insert}
use infra_shelf.Registry.{
  ServiceName, postgres, redis, rabbitmq, aistor, mongodb, signoz, Services, service_catalog,
  service_labels, attached, App,
}
use infra_shelf.Registry.Env.{
  EnvBlock, env_blocks, block, postgres_env, redis_env, rabbitmq_env, aistor_env, mongodb_env,
  signoz_env,
}
use infra_shelf.Registry.Listing.{ServiceInfo, block_map, info_with, infos_of, build_service_infos}

abbrev rendered : {C : Type 0} → (C → Bytes) → Option C → Bytes
rendered env none = []
rendered env (some c) = env c

-- The environment variables of an app for a service, by the service's own function.
abbrev pub env_body_of : ServiceName → Services → Bytes
env_body_of postgres r = rendered postgres_env r.postgres_config
env_body_of redis r = rendered redis_env r.redis_config
env_body_of rabbitmq r = rendered rabbitmq_env r.rabbitmq_config
env_body_of aistor r = rendered aistor_env r.aistor_config
env_body_of mongodb r = rendered mongodb_env r.mongodb_config
env_body_of signoz r = rendered signoz_env r.signoz_config

abbrev with_block : {C : Type 0} → Bytes → (C → Bytes) → Option C → Dict Bytes → Dict Bytes
with_block label env none blocks = blocks
with_block label env (some c) blocks = insert label (env c) blocks

block_map-block :
    {C : Type 0} (label : Bytes) (env : C → Bytes) (o : Option C) (rest : List EnvBlock)
    (blocks : Dict Bytes)
    → block_map blocks (block label env o rest) ≡ block_map (with_block label env o blocks) rest
unfolding block_map
block_map-block label env none rest blocks = refl
block_map-block label env (some c) rest blocks = refl

abbrev or_else : {C : Type 0} → (C → Bytes) → Option C → Option Bytes → Option Bytes
or_else env none o = o
or_else env (some c) o = some (env c)

lookup-with_block :
    {C : Type 0} (k label : Bytes) (env : C → Bytes) (o : Option C) (blocks : Dict Bytes)
    → lookup k (with_block label env o blocks)
      ≡ (if str_eq label k then or_else env o (lookup k blocks) else lookup k blocks)
lookup-with_block k label env none blocks = ground arith
lookup-with_block k label env (some c) blocks = lookup-insert label k (env c) blocks

value_of-or_else :
    {C : Type 0} (env : C → Bytes) (o : Option C) → value_of (or_else env o none) ≡ rendered env o
value_of-or_else env none = refl
value_of-or_else env (some c) = refl

abbrev all_blocks : Services → Dict Bytes
all_blocks r = with_block (codes "SignOz") signoz_env r.signoz_config (
    with_block (codes "MongoDB") mongodb_env r.mongodb_config (
      with_block (codes "AIStor") aistor_env r.aistor_config (
        with_block (codes "RabbitMQ") rabbitmq_env r.rabbitmq_config (
          with_block (codes "Redis") redis_env r.redis_config
            (with_block (codes "PostgreSQL") postgres_env r.postgres_config [])))))

block_map-env_blocks : (a : App) → block_map [] (env_blocks a) ≡ all_blocks a.entry.services
unfolding env_blocks
block_map-env_blocks a =
    rw
      (
        block_map-block, block_map-block, block_map-block, block_map-block, block_map-block,
        block_map-block,
      )
      (unfold block_map in refl)

body_lem :
    (s : ServiceName) (a : App)
    → value_of (lookup (service_labels s) (block_map [] (env_blocks a)))
      ≡ env_body_of s a.entry.services
unfolding str_eq lookup
body_lem postgres a =
    rw
      (
        block_map-env_blocks, lookup-with_block, lookup-with_block, lookup-with_block,
        lookup-with_block, lookup-with_block, lookup-with_block,
      )
      (value_of-or_else postgres_env a.entry.services.postgres_config)
body_lem redis a =
    rw
      (
        block_map-env_blocks, lookup-with_block, lookup-with_block, lookup-with_block,
        lookup-with_block, lookup-with_block, lookup-with_block,
      )
      (value_of-or_else redis_env a.entry.services.redis_config)
body_lem rabbitmq a =
    rw
      (
        block_map-env_blocks, lookup-with_block, lookup-with_block, lookup-with_block,
        lookup-with_block, lookup-with_block, lookup-with_block,
      )
      (value_of-or_else rabbitmq_env a.entry.services.rabbitmq_config)
body_lem aistor a =
    rw
      (
        block_map-env_blocks, lookup-with_block, lookup-with_block, lookup-with_block,
        lookup-with_block, lookup-with_block, lookup-with_block,
      )
      (value_of-or_else aistor_env a.entry.services.aistor_config)
body_lem mongodb a =
    rw
      (
        block_map-env_blocks, lookup-with_block, lookup-with_block, lookup-with_block,
        lookup-with_block, lookup-with_block, lookup-with_block,
      )
      (value_of-or_else mongodb_env a.entry.services.mongodb_config)
body_lem signoz a =
    rw
      (
        block_map-env_blocks, lookup-with_block, lookup-with_block, lookup-with_block,
        lookup-with_block, lookup-with_block, lookup-with_block,
      )
      (value_of-or_else signoz_env a.entry.services.signoz_config)

-- What a page is to show of a service of an app.
abbrev pub info_of : App → ServiceName → ServiceInfo
info_of a s = info_with s (env_body_of s a.entry.services)

infos_of_lem :
    (a : App) (p : ServiceName → Bool) (ss : List ServiceName)
    → infos_of a p (block_map [] (env_blocks a)) ss
      ≡ map (info_of a) (filter (λ s. attached a.entry.services s && p s) ss)
unfolding infos_of
infos_of_lem a p [] = refl
infos_of_lem a p (s ∷ ss) = elim (Bool-cases (attached a.entry.services s)) [
  | inr e ↦ rw (e, infos_of_lem a p ss) refl
  | inl e ↦ elim (Bool-cases (p s)) [
    | inr f ↦ rw (e, f, infos_of_lem a p ss) refl
    | inl f ↦ rw (e, f, infos_of_lem a p ss, body_lem s a) refl
  ]
]

-- `buildServiceInfos` lists the services of the app that the predicate holds of, in the order of
-- the catalog, each with the environment variables that its own function renders, though it looks
-- them up by the label in a map of all blocks.
pub build_service_infos_lem :
    (a : App) (p : ServiceName → Bool)
    → build_service_infos a p
      ≡ map (info_of a) (filter (λ s. attached a.entry.services s && p s) service_catalog)
unfolding build_service_infos
build_service_infos_lem a p = infos_of_lem a p service_catalog
