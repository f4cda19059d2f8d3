-- ===== src/Engine/Coerced.antt =====
-- What saving a registry makes of the configurations of its apps: each stays, its texts coerced.
use infra_shelf.Common.{Bytes, Option, none, some, ◌≡◌, refl, ap, ◌∙◌, sym, subst}
use infra_shelf.Common.Dict.{lookup, map_option, lookup-map_values}
use infra_shelf.Registry.{
  ServiceName, postgres, redis, rabbitmq, aistor, mongodb, signoz, Services, AppEntry, Registry,
}
use infra_shelf.Registry.Coerced.{
  coerced_postgres, coerced_redis, coerced_rabbitmq, coerced_aistor, coerced_mongodb,
  coerced_signoz, coerced_services, coerced_entry, coerced, clean_lookup,
}
use infra_shelf.Engine.{Config}
use infra_shelf.Engine.Attached.{config_of, KeepsConfigs, Extends}

some_inj : {A : Type 0} {a b : A} → some a ≡ some b → a ≡ b
some_inj h = cc

map_option-some :
    {A B : Type 0} (f : A → B) (o : Option A) (b : B)
    → map_option f o ≡ some b
    → (a : A) × (o ≡ some a) × (f a ≡ b)
map_option-some f none b h = absurd (cc h)
map_option-some f (some a) b h = (a, refl, some_inj h)

module _ (valid : Bytes → Bytes) where
  abbrev pub coerced_config : (s : ServiceName) → Config s → Config s
  coerced_config postgres c = coerced_postgres valid c
  coerced_config redis c = coerced_redis valid c
  coerced_config rabbitmq c = coerced_rabbitmq valid c
  coerced_config aistor c = coerced_aistor valid c
  coerced_config mongodb c = coerced_mongodb valid c
  coerced_config signoz c = coerced_signoz valid c

  pub config_of-coerced :
      (s : ServiceName) (r : Services)
      → config_of s (coerced_services valid r) ≡ map_option (coerced_config s) (config_of s r)
  unfolding config_of
  config_of-coerced postgres r = refl
  config_of-coerced redis r = refl
  config_of-coerced rabbitmq r = refl
  config_of-coerced aistor r = refl
  config_of-coerced mongodb r = refl
  config_of-coerced signoz r = refl

  KeepsConfigs-coerced :
      (old new : Services)
      → KeepsConfigs old new
      → KeepsConfigs (coerced_services valid old) (coerced_services valid new)
  KeepsConfigs-coerced old new keep s c h =
      let (a, here, same) =
        map_option-some (coerced_config s) (config_of s old) c
          (sym (config_of-coerced s old) ∙ h) in
      config_of-coerced s new ∙ ap (map_option (coerced_config s)) (keep s a here) ∙ ap some same

  -- A registry that extends another still does when the texts of both are coerced.
  pub Extends-coerced :
      (old new : Registry) → Extends old new → Extends (coerced valid old) (coerced valid new)
  Extends-coerced old new more n e h =
      let (a, here, same) =
        map_option-some (coerced_entry valid) (lookup n old.apps) e
          (sym (lookup-map_values (coerced_entry valid) n old.apps) ∙ h) in
      let (e', found, keep) = more n a here in
      (
        coerced_entry valid e',
        lookup-map_values (coerced_entry valid) n new.apps
            ∙ ap (map_option (coerced_entry valid)) found,
        subst (λ x. KeepsConfigs x.services (coerced_services valid e'.services)) same
            (KeepsConfigs-coerced a.services e'.services keep),
      )

  -- The entry of an app of a registry whose texts are valid.
  pub coerced_entry-of :
      (reg : Registry) (name : Bytes) (e : AppEntry)
      → coerced valid reg ≡ reg
      → lookup name reg.apps ≡ some e
      → coerced_entry valid e ≡ e
  coerced_entry-of reg name e h found =
      some_inj
        (ap (map_option (coerced_entry valid)) (sym found) ∙ clean_lookup valid reg name h ∙ found)
