-- ===== src/Engine/Remove/Cleared.antt =====
-- What a detach leaves of the entry of its app.
use infra_shelf.Common.{
  Bytes, true, false, List, [], ◌∷◌, Option, none, some, ◌≡◌, refl, ◌∙◌, arith, ap, sym,
  if◌then◌else◌, Bool-cases, inl, inr, ◌⊎◌,
}
use infra_shelf.Common.Text.{str_eq, elem, str_eq_iff}
use infra_shelf.Common.Dict.{map_option}
use infra_shelf.Registry.{
  ServiceName, Services, AppEntry, attached, service_string, valid_services,
  valid_services-service_string,
}
use infra_shelf.Registry.Coerced.{coerced_entry, map_option-if}
use infra_shelf.Engine.{clear_service_config}
use infra_shelf.Engine.Attached.{
  config_of, config_of-clear, config_of-not_attached, service_string_valid,
}
use infra_shelf.Engine.Coerced.{coerced_config, config_of-coerced}

-- What is left of an entry: the services not listed, as they were.
pub record Cleared (svcs : List Bytes) (before after : AppEntry) : Type 0 where
  pub same : after ≡ record before { services = after.services }
  pub configs :
      (s : ServiceName)
      → config_of s after.services
        ≡ (if elem (service_string s) svcs then none else config_of s before.services)

pub Cleared-nil : (e : AppEntry) → Cleared [] e e
unfolding elem
Cleared-nil e = record { same = refl; configs = λ s. refl }

-- A round clears the service that it is given.
abbrev pub Round : Bytes → AppEntry → AppEntry → Type 0
Round svc before mid =
    (mid ≡ record before { services = mid.services })
    × ((t : ServiceName)
        → config_of t mid.services
          ≡ (if str_eq svc (service_string t) then none else config_of t before.services))

pub Cleared-cons :
    (svc : Bytes) (svcs : List Bytes) (before mid after : AppEntry)
    → Round svc before mid
    → Cleared svcs mid after
    → Cleared (svc ∷ svcs) before after
unfolding elem
Cleared-cons svc svcs before mid after (same, mid_configs) c = record {
  same = cc (c.same, same);
  configs = λ t. ground (arith, c.configs t, mid_configs t);
}

-- A service that is not attached is skipped.
pub skipped :
    (svc : Bytes) (o : Option ServiceName) (e : AppEntry)
    → valid_services svc ≡ o
    → ((s : ServiceName) → o ≡ some s → attached e.services s ≡ false)
    → Round svc e e
skipped svc o e v none_attached = (refl, λ t. skip t (Bool-cases (str_eq svc (service_string t))))
  where
    skip :
        (t : ServiceName)
        → (str_eq svc (service_string t) ≡ true) ⊎ (str_eq svc (service_string t) ≡ false)
        → config_of t e.services
          ≡ (if str_eq svc (service_string t) then none else config_of t e.services)
    skip t (inr other) = rw other refl
    skip t (inl same) =
        let q : o ≡ some t =
          sym v
          ∙ ap valid_services ((str_eq_iff svc (service_string t)).0 same)
          ∙ valid_services-service_string t in
        rw same (config_of-not_attached t e.services (none_attached t q))

pub cleared :
    (svc : Bytes) (s : ServiceName) (e : AppEntry)
    → valid_services svc ≡ some s
    → Round svc e (record e { services = clear_service_config s e.services })
cleared svc s e v = (refl, λ t. rw (service_string_valid svc s v) (config_of-clear s t e.services))

abbrev with_services : Services → AppEntry → AppEntry
with_services r e = record e { services = r }

module _ (valid : Bytes → Bytes) where
  -- The configuration of a service of an entry whose texts are valid.
  coerced_config-of :
      (s : ServiceName) (e : AppEntry)
      → coerced_entry valid e ≡ e
      → map_option (coerced_config valid s) (config_of s e.services) ≡ config_of s e.services
  coerced_config-of s e clean =
      sym (config_of-coerced valid s e.services) ∙ ap (λ x. config_of s x.services) clean

  -- What is left, when the texts are coerced, is left of an entry whose texts are valid.
  pub Cleared-coerced :
      (svcs : List Bytes) (before after : AppEntry)
      → coerced_entry valid before ≡ before
      → Cleared svcs before after
      → Cleared svcs before (coerced_entry valid after)
  Cleared-coerced svcs before after clean c = record {
    same =
        ap (coerced_entry valid) c.same
        ∙ ap (with_services (coerced_entry valid after).services) clean;
    configs = λ s.
        config_of-coerced valid s after.services
        ∙ ap (map_option (coerced_config valid s)) (c.configs s)
        ∙ map_option-if (coerced_config valid s) (elem (service_string s) svcs) none
            (config_of s before.services)
        ∙ ap (λ o. if elem (service_string s) svcs then none else o)
            (coerced_config-of s before clean);
  }
