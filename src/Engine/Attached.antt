-- ===== src/Engine/Attached.antt =====
-- What an app has of each service, and that an assignment of one service leaves the others.
use infra_shelf.Common.{
  Bytes, Bool-cases, inl, inr, ap, false, Option, none, some, ◌≡◌, refl, ◌∙◌, arith, if◌then◌else◌,
}
use infra_shelf.Common.Text.{str_eq, str_eq_iff}
use infra_shelf.Common.Dict.{lookup, insert, lookup-insert}
use infra_shelf.Registry.{
  ServiceName, postgres, redis, rabbitmq, aistor, mongodb, signoz, Services, AppEntry, Registry,
  attached, valid_services, service_string,
}
use infra_shelf.Engine.{Config, set_service_config, clear_service_config}

-- The configuration that an app has for a service.
unfoldable pub config_of : (s : ServiceName) → Services → Option (Config s)
config_of postgres r = r.postgres_config
config_of redis r = r.redis_config
config_of rabbitmq r = r.rabbitmq_config
config_of aistor r = r.aistor_config
config_of mongodb r = r.mongodb_config
config_of signoz r = r.signoz_config

-- Every configuration of `old` is in `new`.
abbrev pub KeepsConfigs : Services → Services → Type 0
KeepsConfigs old new =
    (s : ServiceName) (c : Config s) → config_of s old ≡ some c → config_of s new ≡ some c

not_attached_none :
    (s : ServiceName) (old : Services) (c : Config s)
    → attached old s ≡ false
    → config_of s old ≡ some c
    → ⊥
unfolding attached config_of
not_attached_none postgres old c a h = ground arith
not_attached_none redis old c a h = ground arith
not_attached_none rabbitmq old c a h = ground arith
not_attached_none aistor old c a h = ground arith
not_attached_none mongodb old c a h = ground arith
not_attached_none signoz old c a h = ground arith

-- The configuration of a service that `old` does not have is set.
pub KeepsConfigs-set :
    (s : ServiceName) (cfg : Config s) (old new : Services)
    → attached old s ≡ false
    → KeepsConfigs old new
    → KeepsConfigs old (set_service_config s cfg new)
unfolding config_of set_service_config
KeepsConfigs-set postgres cfg old new a keep postgres c h =
    absurd (not_attached_none postgres old c a h)
KeepsConfigs-set postgres cfg old new a keep redis c h = keep redis c h
KeepsConfigs-set postgres cfg old new a keep rabbitmq c h = keep rabbitmq c h
KeepsConfigs-set postgres cfg old new a keep aistor c h = keep aistor c h
KeepsConfigs-set postgres cfg old new a keep mongodb c h = keep mongodb c h
KeepsConfigs-set postgres cfg old new a keep signoz c h = keep signoz c h
KeepsConfigs-set redis cfg old new a keep postgres c h = keep postgres c h
KeepsConfigs-set redis cfg old new a keep redis c h = absurd (not_attached_none redis old c a h)
KeepsConfigs-set redis cfg old new a keep rabbitmq c h = keep rabbitmq c h
KeepsConfigs-set redis cfg old new a keep aistor c h = keep aistor c h
KeepsConfigs-set redis cfg old new a keep mongodb c h = keep mongodb c h
KeepsConfigs-set redis cfg old new a keep signoz c h = keep signoz c h
KeepsConfigs-set rabbitmq cfg old new a keep postgres c h = keep postgres c h
KeepsConfigs-set rabbitmq cfg old new a keep redis c h = keep redis c h
KeepsConfigs-set rabbitmq cfg old new a keep rabbitmq c h =
    absurd (not_attached_none rabbitmq old c a h)
KeepsConfigs-set rabbitmq cfg old new a keep aistor c h = keep aistor c h
KeepsConfigs-set rabbitmq cfg old new a keep mongodb c h = keep mongodb c h
KeepsConfigs-set rabbitmq cfg old new a keep signoz c h = keep signoz c h
KeepsConfigs-set aistor cfg old new a keep postgres c h = keep postgres c h
KeepsConfigs-set aistor cfg old new a keep redis c h = keep redis c h
KeepsConfigs-set aistor cfg old new a keep rabbitmq c h = keep rabbitmq c h
KeepsConfigs-set aistor cfg old new a keep aistor c h = absurd (not_attached_none aistor old c a h)
KeepsConfigs-set aistor cfg old new a keep mongodb c h = keep mongodb c h
KeepsConfigs-set aistor cfg old new a keep signoz c h = keep signoz c h
KeepsConfigs-set mongodb cfg old new a keep postgres c h = keep postgres c h
KeepsConfigs-set mongodb cfg old new a keep redis c h = keep redis c h
KeepsConfigs-set mongodb cfg old new a keep rabbitmq c h = keep rabbitmq c h
KeepsConfigs-set mongodb cfg old new a keep aistor c h = keep aistor c h
KeepsConfigs-set mongodb cfg old new a keep mongodb c h =
    absurd (not_attached_none mongodb old c a h)
KeepsConfigs-set mongodb cfg old new a keep signoz c h = keep signoz c h
KeepsConfigs-set signoz cfg old new a keep postgres c h = keep postgres c h
KeepsConfigs-set signoz cfg old new a keep redis c h = keep redis c h
KeepsConfigs-set signoz cfg old new a keep rabbitmq c h = keep rabbitmq c h
KeepsConfigs-set signoz cfg old new a keep aistor c h = keep aistor c h
KeepsConfigs-set signoz cfg old new a keep mongodb c h = keep mongodb c h
KeepsConfigs-set signoz cfg old new a keep signoz c h = absurd (not_attached_none signoz old c a h)

-- `clearServiceConfig` clears the configuration of its service and of no other.
pub config_of-clear :
    (s t : ServiceName) (r : Services)
    → config_of t (clear_service_config s r)
      ≡ (if str_eq (service_string s) (service_string t) then none else config_of t r)
unfolding config_of clear_service_config str_eq
config_of-clear postgres postgres r = refl
config_of-clear postgres redis r = refl
config_of-clear postgres rabbitmq r = refl
config_of-clear postgres aistor r = refl
config_of-clear postgres mongodb r = refl
config_of-clear postgres signoz r = refl
config_of-clear redis postgres r = refl
config_of-clear redis redis r = refl
config_of-clear redis rabbitmq r = refl
config_of-clear redis aistor r = refl
config_of-clear redis mongodb r = refl
config_of-clear redis signoz r = refl
config_of-clear rabbitmq postgres r = refl
config_of-clear rabbitmq redis r = refl
config_of-clear rabbitmq rabbitmq r = refl
config_of-clear rabbitmq aistor r = refl
config_of-clear rabbitmq mongodb r = refl
config_of-clear rabbitmq signoz r = refl
config_of-clear aistor postgres r = refl
config_of-clear aistor redis r = refl
config_of-clear aistor rabbitmq r = refl
config_of-clear aistor aistor r = refl
config_of-clear aistor mongodb r = refl
config_of-clear aistor signoz r = refl
config_of-clear mongodb postgres r = refl
config_of-clear mongodb redis r = refl
config_of-clear mongodb rabbitmq r = refl
config_of-clear mongodb aistor r = refl
config_of-clear mongodb mongodb r = refl
config_of-clear mongodb signoz r = refl
config_of-clear signoz postgres r = refl
config_of-clear signoz redis r = refl
config_of-clear signoz rabbitmq r = refl
config_of-clear signoz aistor r = refl
config_of-clear signoz mongodb r = refl
config_of-clear signoz signoz r = refl

pub config_of-not_attached :
    (s : ServiceName) (r : Services) → attached r s ≡ false → config_of s r ≡ none
unfolding config_of attached
config_of-not_attached postgres r a = ground arith
config_of-not_attached redis r a = ground arith
config_of-not_attached rabbitmq r a = ground arith
config_of-not_attached aistor r a = ground arith
config_of-not_attached mongodb r a = ground arith
config_of-not_attached signoz r a = ground arith

pub service_string_valid :
    (svc : Bytes) (s : ServiceName) → valid_services svc ≡ some s → svc ≡ service_string s
unfolding valid_services
service_string_valid svc s h = ground (
  arith,
  str_eq_iff svc (service_string postgres),
  str_eq_iff svc (service_string redis),
  str_eq_iff svc (service_string rabbitmq),
  str_eq_iff svc (service_string aistor),
  str_eq_iff svc (service_string mongodb),
  str_eq_iff svc (service_string signoz),
)

-- Every app of `old` is in `new`, with all the configurations that it had.
abbrev pub Extends : Registry → Registry → Type 0
Extends old new =
    (n : Bytes) (e : AppEntry)
    → lookup n old.apps ≡ some e
    → (e' : AppEntry) × (lookup n new.apps ≡ some e') × KeepsConfigs e.services e'.services

pub Extends-refl : (reg : Registry) → Extends reg reg
Extends-refl reg n e h = (e, h, λ s c k. k)

pub Extends-trans : (a b c : Registry) → Extends a b → Extends b c → Extends a c
Extends-trans a b c f g n e h =
    let (e', h', k) = f n e h in
    let (e'', h'', k') = g n e' h' in (e'', h'', λ s cfg x. k' s cfg (k s cfg x))

-- The entry of an app is replaced by one with its configurations.
pub Extends-insert :
    (reg : Registry) (name : Bytes) (entry e' : AppEntry)
    → lookup name reg.apps ≡ some entry
    → KeepsConfigs entry.services e'.services
    → Extends reg (record reg { apps = insert name e' reg.apps })
Extends-insert reg name entry e' found keep n e h = elim (Bool-cases (str_eq name n)) [
  | inl same ↦
      let q : entry ≡ e = cc (found, h, (str_eq_iff name n).0 same) in
      (
        e',
        lookup-insert name n e' reg.apps ∙ rw same refl,
        λ s c k. keep s c (ap (λ x. config_of s x.services) q ∙ k),
      )
  | inr other ↦ (e, lookup-insert name n e' reg.apps ∙ rw other h, λ s c k. k)
]
