-- ===== src/Envspec/Laws.antt =====
-- What `ParseEnvs` accepts.
use infra_shelf.Common.{
  ℕ, Bytes, true, false, List, [], ◌∷◌, ◌++◌, Result, ok, err, invalid_env_name, duplicate_envs,
  ◌≡◌, ◌≢◌, refl, arith, All, Bool-cases, inl, inr, all, ◌==◌, ◌⊎◌, ◌↔◌, ◌>>◌,
}
use infra_shelf.Common.Text.{elem, is_empty, is_space, split, join}
use infra_shelf.Common.Text.Elem.{IsDistinct, elem-append, elem_self, str_eq_comm, All-elem}
use infra_shelf.Common.Text.Split.{Lacks, split-join}
use infra_shelf.Common.Text.Trim.{IsWord, trim_space-IsWord}
use infra_shelf.Registry.Names.{app_name_pattern, is_name_char, is_lower}
use infra_shelf.Envspec.{env_name_pattern, trimmed_parts, check_envs, accept_parts, parse_envs}

abbrev pub IsEnvName : Bytes → Type 0
IsEnvName env = env_name_pattern env ≡ true

-- The texts of `xs` are no members of `seen`.
abbrev IsFresh : List Bytes → List Bytes → Type 0
IsFresh seen = All (λ x. elem x seen ≡ false)

-- What the check of the parts says.
abbrev Checked : List Bytes → List Bytes → List Bytes → Result (Unit {0}) → Type 0
Checked whole seen rest (ok u) = All IsEnvName rest × IsFresh seen rest × IsDistinct rest
Checked whole seen rest (err e) =
    ((x : Bytes) × (e ≡ invalid_env_name x) × (elem x rest ≡ true) × (env_name_pattern x ≡ false))
    ⊎ ((e ≡ duplicate_envs whole) × ¬ (IsFresh seen rest × IsDistinct rest))

-- names have no white space and no comma
name_char_graphic : (c : ℕ) → is_name_char c ≡ true → (is_space c ≡ false) × ((c == b',') ≡ false)
name_char_graphic c h = ground arith

lower_graphic : (c : ℕ) → is_lower c ≡ true → (is_space c ≡ false) × ((c == b',') ≡ false)
lower_graphic c h = ground arith

names_graphic : (s : Bytes) → all is_name_char s ≡ true → IsWord s × Lacks b',' s
names_graphic [] h = (tt, tt)
names_graphic (c ∷ s) h = ground (arith, name_char_graphic c, names_graphic s)

pub name_graphic : (s : Bytes) → app_name_pattern s ≡ true → IsWord s × Lacks b',' s
unfolding app_name_pattern
name_graphic [] h = (tt, tt)
name_graphic (c ∷ s) h = ground (arith, lower_graphic c, names_graphic s)

name_ne : (s : Bytes) → app_name_pattern s ≡ true → is_empty s ≡ false
unfolding app_name_pattern
name_ne [] h = ground arith
name_ne (c ∷ s) h = refl

IsFresh-later :
    (seen : List Bytes) (env : Bytes) (rest : List Bytes)
    → IsFresh (seen ++ env ∷ []) rest ↔ (IsFresh seen rest × (elem env rest ≡ false))
unfolding elem
IsFresh-later seen env [] = (λ h. (tt, refl), λ h. tt)
IsFresh-later seen env (x ∷ rest) =
    let (down, up) = IsFresh-later seen env rest in
    (
      λ (hx, h). ground (arith, down h, elem-append x seen (env ∷ []), str_eq_comm x env),
      λ ((hx, h), e).
          (ground (arith, elem-append x seen (env ∷ []), str_eq_comm x env), up (h, ground arith)),
    )

Checked-cons :
    (whole seen : List Bytes) (env : Bytes) (rest : List Bytes) (r : Result (Unit {0}))
    → env_name_pattern env ≡ true
    → elem env seen ≡ false
    → Checked whole (seen ++ env ∷ []) rest r
    → Checked whole seen (env ∷ rest) r
unfolding elem
Checked-cons whole seen env rest (ok u) good new (valid, fresh, distinct) =
    let (f, e) = (IsFresh-later seen env rest).0 fresh in ((good, valid), (new, f), (e, distinct))
Checked-cons whole seen env rest (err e) good new (inl (x, same, among, bad)) =
    inl (x, same, ground arith, bad)
Checked-cons whole seen env rest (err e) good new (inr (same, no_such)) =
    inr (same, λ ((h, f), (g, d)). no_such ((IsFresh-later seen env rest).1 (f, g), d))

check_envs_lem :
    (whole seen rest : List Bytes) → Checked whole seen rest (check_envs whole seen rest)
unfolding check_envs
check_envs_lem whole seen [] = (tt, tt, tt)
check_envs_lem whole seen (env ∷ rest) = elim (Bool-cases (env_name_pattern env)) [
  | inl good ↦ elim (Bool-cases (elem env seen)) [
    | inl twice ↦ rw (good, twice) (inr (refl, λ h. ground (arith, h.0.0)))
    | inr new ↦
        rw (good, new)
          (Checked-cons whole seen env rest (check_envs whole (seen ++ env ∷ []) rest) good new
            (check_envs_lem whole (seen ++ env ∷ []) rest))
  ]
  | inr bad ↦ rw bad (inl (env, refl, elem_self env rest, bad))
]

-- A list of environments that can be accepted.
pub record IsEnvList (envs : List Bytes) : Type 0 where
  pub some_env : envs ≢ []
  pub valid : All IsEnvName envs
  pub distinct : IsDistinct envs

IsFresh-nil : (xs : List Bytes) → IsFresh [] xs
unfolding elem
IsFresh-nil [] = tt
IsFresh-nil (x ∷ xs) = (refl, IsFresh-nil xs)

-- what the check says decides what is returned
accepted_iff :
    (parts : List Bytes) {envs : List Bytes} (r : Result (Unit {0}))
    → parts ≢ []
    → Checked parts [] parts r
    → ((r >> ok parts) ≡ ok envs) ↔ ((envs ≡ parts) × IsEnvList parts)
accepted_iff parts (ok u) ne (valid, fresh, distinct) =
    (λ h. (cc, record { some_env = ne; valid = valid; distinct = distinct }), λ (e, l). cc)
accepted_iff parts (err e) ne (inl (x, same, among, bad)) =
    (λ h. cc, λ (eq, l). absurd (ground (arith, All-elem IsEnvName x parts l.valid among)))
accepted_iff parts (err e) ne (inr (same, no_such)) =
    (λ h. cc, λ (eq, l). absurd (no_such (IsFresh-nil parts, l.distinct)))

accept_parts_iff :
    (parts envs : List Bytes) → (accept_parts parts ≡ ok envs) ↔ ((envs ≡ parts) × IsEnvList parts)
unfolding accept_parts
accept_parts_iff [] envs = (λ h. cc, λ (e, l). absurd (l.some_env refl))
accept_parts_iff (p ∷ ps) envs =
    accepted_iff (p ∷ ps) (check_envs (p ∷ ps) [] (p ∷ ps)) (cc)
      (check_envs_lem (p ∷ ps) [] (p ∷ ps))

-- A flag that is not empty is accepted exactly when its parts, trimmed and without the blank ones,
-- are one or more valid names, none of them twice; and those parts are what is returned.
pub parse_envs_iff :
    (raw : Bytes) (envs : List Bytes)
    → raw ≢ []
    → (parse_envs raw ≡ ok envs)
      ↔ ((envs ≡ trimmed_parts (split raw b',')) × IsEnvList (trimmed_parts (split raw b',')))
unfolding parse_envs
parse_envs_iff [] envs ne = absurd (ne refl)
parse_envs_iff (c ∷ s) envs ne = accept_parts_iff (trimmed_parts (split (c ∷ s) b',')) envs

-- names are returned as they are
trimmed_parts-names : (envs : List Bytes) → All IsEnvName envs → trimmed_parts envs ≡ envs
unfolding trimmed_parts
trimmed_parts-names [] h = refl
trimmed_parts-names (env ∷ envs) (valid, h) = rw (
  trim_space-IsWord env (name_graphic env valid).0,
  name_ne env valid,
  trimmed_parts-names envs h,
)

names_lack_comma : (envs : List Bytes) → All IsEnvName envs → All (Lacks b',') envs
names_lack_comma [] h = tt
names_lack_comma (env ∷ envs) (valid, h) = ((name_graphic env valid).1, names_lack_comma envs h)

join_ne : (envs : List Bytes) → IsEnvList envs → join envs (b',' ∷ []) ≢ []
unfolding join app_name_pattern
join_ne [] l = absurd (l.some_env refl)
join_ne ([] ∷ envs) l = absurd (ground (arith, l.valid))
join_ne ((c ∷ s) ∷ []) l = cc
join_ne ((c ∷ s) ∷ e ∷ envs) l = cc

-- Printing a list of distinct environment names as CSV and parsing it gives the list back.
pub parse_envs-join :
    (envs : List Bytes) → IsEnvList envs → parse_envs (join envs (b',' ∷ [])) ≡ ok envs
parse_envs-join envs l =
    let same = split-join b',' envs l.some_env (names_lack_comma envs l.valid) in
    let parts = trimmed_parts-names envs l.valid in
    (parse_envs_iff (join envs (b',' ∷ [])) envs (join_ne envs l)).1 (rw same (rw parts (refl, l)))
