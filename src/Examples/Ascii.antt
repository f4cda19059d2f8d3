-- ===== src/Examples/Ascii.antt =====
-- A coercion of texts: every byte that is not of ASCII becomes a question mark.
use infra_shelf.Common.{
  ℕ, ◌<◌, Bytes, Bool, true, false, ◌&&◌, [], ◌∷◌, some, none, Option, ltb, ◌≡◌, refl, arith, All,
  subst, if◌then◌else◌, Bool-cases, inl, inr, ◌∙◌, sym,
}
use infra_shelf.Common.Text.{str_eq, str_eq_iff, str_eq_refl}
use infra_shelf.Common.Dict.{Dict, lookup, map_option, lookup-map_values}
use infra_shelf.Registry.{AppEntry, Registry}
use infra_shelf.Registry.Coerced.{coerced, coerced_entry, IsNamed, IsClean, coerced-coerced}

abbrev pub ascii_byte : ℕ → ℕ
ascii_byte b = if ltb b 128 then b else b'?'

abbrev pub ascii : Bytes → Bytes
ascii [] = []
ascii (b ∷ s) = ascii_byte b ∷ ascii s

pub ascii-ascii : (s : Bytes) → ascii (ascii s) ≡ ascii s
ascii-ascii [] = refl
ascii-ascii (b ∷ s) = ground (arith, ascii-ascii s)

pub ascii_same : (s : Bytes) → All (λ b. b < 128) s → ascii s ≡ s
ascii_same [] h = refl
ascii_same (b ∷ s) (h, t) = ground (arith, h, ascii_same s t)

-- The keys are ASCII texts.
abbrev pub has_ascii_keys : Dict AppEntry → Bool
has_ascii_keys [] = true
has_ascii_keys ((k, e) ∷ m) = str_eq (ascii k) k && has_ascii_keys m

pub has_ascii_keys-IsNamed : (m : Dict AppEntry) → IsNamed ascii m → has_ascii_keys m ≡ true
unfolding lookup
has_ascii_keys-IsNamed [] h = refl
has_ascii_keys-IsNamed ((k, e) ∷ m) h =
    rw ((str_eq_iff (ascii k) k).1 first) (has_ascii_keys-IsNamed m later)
  where
    first : ascii k ≡ k
    first = h k e (rw (str_eq_refl k) refl)

    later : IsNamed ascii m
    later j x f = elim (Bool-cases (str_eq k j)) [
      | inl same ↦ subst (λ i. ascii i ≡ i) ((str_eq_iff k j).0 same) first
      | inr other ↦ h j x (rw other f)
    ]

pub ascii_keys : (m : Dict AppEntry) → has_ascii_keys m ≡ true → IsNamed ascii m
unfolding lookup
ascii_keys [] h = λ k e f. absurd (cc f)
ascii_keys ((j, x) ∷ m) h = λ k e f. elim (Bool-cases (str_eq j k)) [
  | inl same ↦
      subst (λ i. ascii i ≡ i) ((str_eq_iff j k).0 same)
        ((str_eq_iff (ascii j) j).0 (ground (arith, h)))
  | inr other ↦ ascii_keys m (ground (arith, h)) k e (ground (arith, f, other))
]

-- The registry as it is read: its texts coerced, if its keys are ASCII texts.
abbrev pub read_registry : Registry → Option Registry
read_registry r = if has_ascii_keys r.apps then some (coerced ascii r) else none

pub read_registry_named :
    (r : Registry) → IsNamed ascii r.apps → read_registry r ≡ some (coerced ascii r)
read_registry_named r h = rw (has_ascii_keys-IsNamed r.apps h) refl

some_inj : {A : Type 0} {a b : A} → some a ≡ some b → a ≡ b
some_inj h = cc

some_of :
    {A : Type 0} (o : Option A) (f : A → A) (b : A)
    → map_option f o ≡ some b
    → (a : A) × (o ≡ some a)
some_of none f b h = absurd (cc h)
some_of (some a) f b h = (a, refl)

pub read_registry-IsClean : (r q : Registry) → read_registry r ≡ some q → IsClean ascii q
read_registry-IsClean r q h = on_keys (has_ascii_keys r.apps) refl h
  where
    clean : has_ascii_keys r.apps ≡ true → IsClean ascii (coerced ascii r)
    clean good = record {
      texts = coerced-coerced ascii ascii-ascii r;
      names = λ k e f.
          let (a, here) =
            some_of (lookup k r.apps) (coerced_entry ascii) e
              (sym (lookup-map_values (coerced_entry ascii) k r.apps) ∙ f) in
          ascii_keys r.apps good k a here;
    }

    on_keys :
        (b : Bool)
        → has_ascii_keys r.apps ≡ b
        → (if b then some (coerced ascii r) else none) ≡ some q
        → IsClean ascii q
    on_keys true good e = subst (IsClean ascii) (some_inj e) (clean good)
    on_keys false bad e = absurd (cc e)
