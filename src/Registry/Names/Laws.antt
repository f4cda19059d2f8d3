-- ===== src/Registry/Names/Laws.antt =====
-- What `ParseServices` returns, and what it refuses.
use infra_shelf.Common.{
  Bytes, Bool, true, false, ◌&&◌, ◌||◌, not, List, [], ◌∷◌, ◌++◌, map, none, Result, ok, err,
  invalid_service, ◌≡◌, refl, ap, ◌∙◌, arith, All, All-append, Bool-cases, Option-cases, inl, inr,
  is_some,
}
use infra_shelf.Common.Text.{elem, trim_space, is_empty, str_eq, str_eq_iff, str_eq_refl}
use infra_shelf.Common.Text.Elem.{IsDistinct, IsDistinct-snoc, elem-append}
use infra_shelf.Registry.{valid_services}
use infra_shelf.Registry.Names.{parse_services_loop, parse_services}

abbrev pub IsService : Bytes → Type 0
IsService x = is_some (valid_services x) ≡ true

-- Among the values, trimmed, blank ones left out.
abbrev pub wanted : Bytes → List Bytes → Bool
wanted x values = not (is_empty x) && elem x (map trim_space values)

-- What the loop has made of `values` when it began with `services`: the services and the wanted
-- values, each once; or the error of a wanted value that is no service.
pub record LoopResult (values services out : List Bytes) : Type 0 where
  pub distinct : IsDistinct out
  pub valid : All IsService out
  pub members : (x : Bytes) → elem x out ≡ (elem x services || wanted x values)

abbrev pub Outcome : List Bytes → List Bytes → Result (List Bytes) → Type 0
Outcome values services (ok out) = LoopResult values services out
Outcome values services (err e) =
    (x : Bytes) × (e ≡ invalid_service x) × (wanted x values ≡ true) × (valid_services x ≡ none)

Outcome-cons :
    (raw : Bytes) (values before after : List Bytes) (r : Result (List Bytes))
    → ((x : Bytes) → (elem x after || wanted x values) ≡ (elem x before || wanted x (raw ∷ values)))
    → Outcome values after r
    → Outcome (raw ∷ values) before r
unfolding elem
Outcome-cons raw values before after (ok out) grows o = record {
  distinct = o.distinct;
  valid = o.valid;
  members = λ x. o.members x ∙ grows x;
}
Outcome-cons raw values before after (err e) grows (x, same, w, bad) = (x, same, ground arith, bad)

is_empty-str_eq : (x y : Bytes) → str_eq x y ≡ true → is_empty x ≡ is_empty y
is_empty-str_eq x y h = ap is_empty ((str_eq_iff x y).0 h)

wanted_head :
    (raw : Bytes) (values : List Bytes)
    → is_empty (trim_space raw) ≡ false
    → wanted (trim_space raw) (raw ∷ values) ≡ true
unfolding elem
wanted_head raw values h = ground (arith, str_eq_refl (trim_space raw))

blank_grows :
    (raw : Bytes) (values services : List Bytes)
    → is_empty (trim_space raw) ≡ true
    → (x : Bytes)
    → (elem x services || wanted x values) ≡ (elem x services || wanted x (raw ∷ values))
unfolding elem
blank_grows raw values services h x = ground (arith, is_empty-str_eq (trim_space raw) x)

seen_grows :
    (raw : Bytes) (values services : List Bytes)
    → elem (trim_space raw) services ≡ true
    → (x : Bytes)
    → (elem x services || wanted x values) ≡ (elem x services || wanted x (raw ∷ values))
unfolding elem
seen_grows raw values services h x = ground (arith, str_eq_iff (trim_space raw) x)

new_grows :
    (raw : Bytes) (values services : List Bytes)
    → is_empty (trim_space raw) ≡ false
    → (x : Bytes)
    → (elem x (services ++ trim_space raw ∷ []) || wanted x values)
      ≡ (elem x services || wanted x (raw ∷ values))
unfolding elem
new_grows raw values services h x =
    ground (arith, str_eq_iff (trim_space raw) x, elem-append x services (trim_space raw ∷ []))

loop_sound :
    (values services : List Bytes)
    → IsDistinct services
    → All IsService services
    → Outcome values services (parse_services_loop values services)
unfolding parse_services_loop elem
loop_sound [] services d v = record { distinct = d; valid = v; members = λ x. ground arith }
loop_sound (raw ∷ values) services d v = elim (Bool-cases (is_empty (trim_space raw))) [
  | inl blank ↦ rw blank (
      Outcome-cons raw values services services _ (blank_grows raw values services blank)
        (loop_sound values services d v))
  | inr full ↦ elim (Option-cases (valid_services (trim_space raw))) [
    | inl bad ↦ rw (full, bad) (trim_space raw, refl, wanted_head raw values full, bad)
    | inr (s, good) ↦ elim (Bool-cases (elem (trim_space raw) services)) [
      | inl seen ↦
          rw (full, good, seen)
            (Outcome-cons raw values services services _ (seen_grows raw values services seen)
              (loop_sound values services d v))
      | inr new ↦
          rw (full, good, new)
            (Outcome-cons raw values services (services ++ trim_space raw ∷ []) _
              (new_grows raw values services full)
              (loop_sound values (services ++ trim_space raw ∷ [])
                (IsDistinct-snoc services (trim_space raw) d new)
                (All-append IsService services (trim_space raw ∷ []) v (rw good refl, tt))))
    ]
  ]
]

-- `ParseServices` either returns the trimmed, non-blank values, each once and all of them names
-- of services, or the error of such a value that is none; it refuses nothing else.
pub parse_services_lem : (values : List Bytes) → Outcome values [] (parse_services values)
unfolding parse_services
parse_services_lem values = loop_sound values [] tt tt
