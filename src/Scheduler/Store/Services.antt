-- ===== src/Scheduler/Store/Services.antt =====
-- The services of a schedule come back from their column as they were.
use infra_shelf.Common.{
  Bytes, Bool, true, false, List, [], ◌∷◌, ◌≡◌, refl, ◌∙◌, ap, arith, All, all, not, ◌&&◌, ◌==◌,
  Option-cases, inl, inr,
}
use infra_shelf.Common.Text.{join, split, is_empty, is_space}
use infra_shelf.Common.Text.Split.{Lacks, split-join}
use infra_shelf.Common.Text.Trim.{IsWord, trim_space-IsWord}
use infra_shelf.Registry.{
  ServiceName, postgres, redis, rabbitmq, aistor, mongodb, signoz, valid_services, service_string,
}
use infra_shelf.Registry.Names.Laws.{IsService}
use infra_shelf.Engine.Attached.{service_string_valid}
use infra_shelf.Scheduler.Rows.{join_services, split_services, kept_parts}

-- What survives the list: some text without commas and white space.
abbrev IsItem : Bytes → Type 0
IsItem s = IsWord s × Lacks b',' s × (is_empty s ≡ false)

is_plain : Bytes → Bool
is_plain = all (λ c. not (is_space c) && not (c == b','))

plain-IsWord : (s : Bytes) → is_plain s ≡ true → IsWord s × Lacks b',' s
unfolding is_plain
plain-IsWord [] h = (tt, tt)
plain-IsWord (c ∷ s) h = ground (arith, plain-IsWord s)

IsItem-of : (s : Bytes) → is_plain s ≡ true → is_empty s ≡ false → IsItem s
IsItem-of s h e = let (word, lacks) = plain-IsWord s h in (word, lacks, e)

service-IsItem : (s : ServiceName) → IsItem (service_string s)
unfolding is_plain
service-IsItem postgres = IsItem-of (service_string postgres) refl refl
service-IsItem redis = IsItem-of (service_string redis) refl refl
service-IsItem rabbitmq = IsItem-of (service_string rabbitmq) refl refl
service-IsItem aistor = IsItem-of (service_string aistor) refl refl
service-IsItem mongodb = IsItem-of (service_string mongodb) refl refl
service-IsItem signoz = IsItem-of (service_string signoz) refl refl

IsService-IsItem : (s : Bytes) → IsService s → IsItem s
IsService-IsItem s h = elim (Option-cases (valid_services s)) [
  | inl bad ↦ absurd (ground arith)
  | inr (name, good) ↦ rw (service_string_valid s name good) (service-IsItem name)
]

kept_parts-items : (ss : List Bytes) → All IsService ss → kept_parts ss ≡ ss
unfolding kept_parts
kept_parts-items [] h = refl
kept_parts-items (s ∷ ss) (hs, h) =
    let (word, lacks, some_text) = IsService-IsItem s hs in
    rw (trim_space-IsWord s word, some_text) (ap (λ r. s ∷ r) (kept_parts-items ss h))

services_lack : (ss : List Bytes) → All IsService ss → All (Lacks b',') ss
services_lack [] h = tt
services_lack (s ∷ ss) (hs, h) = ((IsService-IsItem s hs).1, services_lack ss h)

split_of :
    (value : Bytes) → is_empty value ≡ false → split_services value ≡ kept_parts (split value b',')
unfolding split_services
split_of [] h = absurd (cc h)
split_of (c ∷ value) h = refl

join_some :
    (s : Bytes) (ss : List Bytes)
    → is_empty s ≡ false
    → is_empty (join (s ∷ ss) (b',' ∷ [])) ≡ false
unfolding join
join_some [] ss h = absurd (cc h)
join_some (c ∷ s) [] h = refl
join_some (c ∷ s) (t ∷ ss) h = refl

-- Services, written to their column and read again, are the same list, also where there are none.
pub split_services-join_services :
    (ss : List Bytes) → All IsService ss → split_services (join_services ss) ≡ ss
unfolding join_services
split_services-join_services [] h = unfold split_services join in refl
split_services-join_services (s ∷ ss) h =
    split_of (join (s ∷ ss) (b',' ∷ [])) (join_some s ss (IsService-IsItem s h.0).2)
    ∙ ap kept_parts (split-join b',' (s ∷ ss) (cc) (services_lack (s ∷ ss) h))
    ∙ kept_parts-items (s ∷ ss) h
