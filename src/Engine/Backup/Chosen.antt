-- ===== src/Engine/Backup/Chosen.antt =====
-- The services that a backup or a restore takes.
use infra_shelf.Common.{
  Bytes, Bool, true, false, ◌&&◌, ◌||◌, List, [], ◌∷◌, ◌≡◌, refl, ap, ◌∙◌, arith, filter,
  Bool-cases, inl, inr,
}
use infra_shelf.Common.Text.{elem, str_eq, str_eq_iff}
use infra_shelf.Registry.{
  ServiceName, postgres, redis, rabbitmq, aistor, mongodb, signoz, AppEntry, service_string,
  valid_services, valid_services-service_string,
}
use infra_shelf.Engine.Remove.{ordered_services}
use infra_shelf.Engine.Backup.{choose_backup_services, provisioned_here, requested_only}

-- The service is in the list.
abbrev pub has : ServiceName → List ServiceName → Bool
has s [] = false
has s (t ∷ ts) = str_eq (service_string t) (service_string s) || has s ts

-- No request, or one that names the service.
abbrev pub is_requested : ServiceName → List Bytes → Bool
is_requested s [] = true
is_requested s (r ∷ rs) = elem (service_string s) (r ∷ rs)

same_service : (t s : ServiceName) → str_eq (service_string t) (service_string s) ≡ true → t ≡ s
same_service t s h = cc (
  ap valid_services ((str_eq_iff (service_string t) (service_string s)).0 h),
  valid_services-service_string t,
  valid_services-service_string s,
)

has-filter :
    (p : ServiceName → Bool) (s : ServiceName) (ts : List ServiceName)
    → has s (filter p ts) ≡ (has s ts && p s)
has-filter p s [] = refl
has-filter p s (t ∷ ts) = elim (Bool-cases (str_eq (service_string t) (service_string s))) [
  | inl same ↦ let q : p t ≡ p s = ap p (same_service t s same) in ground (arith, has-filter p s ts)
  | inr other ↦ ground (arith, has-filter p s ts)
]

has-ordered_services : (s : ServiceName) → has s ordered_services ≡ true
unfolding str_eq
has-ordered_services postgres = refl
has-ordered_services redis = refl
has-ordered_services rabbitmq = refl
has-ordered_services aistor = refl
has-ordered_services mongodb = refl
has-ordered_services signoz = refl

has-requested_only :
    (s : ServiceName) (requested : List Bytes) (ts : List ServiceName)
    → has s (requested_only requested ts) ≡ (has s ts && is_requested s requested)
has-requested_only s [] ts = ground arith
has-requested_only s (r ∷ rs) ts = has-filter (λ t. elem (service_string t) (r ∷ rs)) s ts

-- `chooseBackupServices` takes a service exactly when the app has it, it can be backed up, and the
-- request is empty or names it.
pub choose_backup_services_lem :
    (entry : AppEntry) (requested : List Bytes) (s : ServiceName)
    → has s (choose_backup_services entry requested)
      ≡ (provisioned_here entry s && is_requested s requested)
unfolding choose_backup_services
choose_backup_services_lem entry requested s =
    has-requested_only s requested (filter (provisioned_here entry) ordered_services)
    ∙ ap (λ b. b && is_requested s requested)
        (has-filter (provisioned_here entry) s ordered_services
          ∙ ap (λ b. b && provisioned_here entry s) (has-ordered_services s))
