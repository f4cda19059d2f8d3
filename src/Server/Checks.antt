-- ===== src/Server/Checks.antt =====
-- internal/web/server/server.go: which forms `createSchedule` accepts.
use infra_shelf.Common.{
  Bytes, Bool, true, false, List, [], Option, none, some, Result, ok, err, Error, ◌≡◌, refl, ◌⊎◌,
  inl, inr, if◌then◌else◌, All, Bool-cases, arith, subst,
}
use infra_shelf.Common.Text.{codes, is_empty, str_eq, eq_of-str_eq, trim_space}
use infra_shelf.Registry.{App}
use infra_shelf.Registry.Names.{app_name_pattern, validate_app_name, parse_services}
use infra_shelf.Registry.Names.Laws.{IsService, Outcome, parse_services_lem}
use infra_shelf.Scheduler.Rows.{ScheduleInput}
use infra_shelf.Scheduler.Jobs.{Cron, validate}
use infra_shelf.Server.{
  Form, Checked, refused, accepted, or_refuse, must_be_found, unless_failed, check_app, check_cron,
  check_form, ◌>>=◌,
}

-- What a chain of checks accepts, each of them accepts.
accepted_lem :
    {A B : Type 0} (x : Checked A) (f : A → Checked B) (b : B)
    → (x >>= f) ≡ accepted b
    → (a : A) × (x ≡ accepted a) × (f a ≡ accepted b)
accepted_lem (refused e) f b h = absurd (ground arith)
accepted_lem (accepted a) f b h = (a, refl, h)

else_of {ℓ} : {A : Type ℓ} (b : Bool) (x y z : A) → b ≡ false → (if b then x else y) ≡ z → y ≡ z
else_of true x y z e h = absurd (ground arith)
else_of false x y z e h = h

accepted_inj : {A : Type 0} (a b : A) → accepted a ≡ accepted b → a ≡ b
accepted_inj a b h = ground arith

services_valid : (values out : List Bytes) → parse_services values ≡ ok out → All IsService out
services_valid values out h = (subst (λ r. Outcome values [] r) h (parse_services_lem values)).valid

ok_of-or_refuse :
    {A : Type 0} (message say : Error → Bytes) (r : Result A) (a : A)
    → or_refuse message say r ≡ accepted a
    → r ≡ ok a
ok_of-or_refuse message say (ok x) a h = ground arith
ok_of-or_refuse message say (err e) a h = absurd (ground arith)

module _ (message : Error → Bytes) (cron : Cron) (get_app : Bytes → Result (Option App)) where
  -- An app that is there, or all of them.
  abbrev pub IsTarget : Bytes → Type 0
  IsTarget name =
      (name ≡ codes "*")
      ⊎ ((app_name_pattern name ≡ true) × ((a : App) × (get_app name ≡ ok (some a))))

  pub record IsAcceptable (input : ScheduleInput) : Type 0 where
    pub target : IsTarget input.app_name
    pub services : All IsService input.services
    pub cron_expr : validate cron input.cron_expr ≡ ok tt
    pub timezone : (l : Bytes) × (cron.load_location input.timezone ≡ ok l)
    pub enabled : input.enabled ≡ true

  found_lem :
      (name : Bytes) (o : Option App) (u : Unit {0})
      → get_app name ≡ ok o
      → must_be_found message o ≡ accepted u
      → (a : App) × (get_app name ≡ ok (some a))
  found_lem name (some a) u g h = (a, g)
  found_lem name none u g h = absurd (ground arith)

  valid_name :
      (name : Bytes) {v : Unit {0}} → validate_app_name name ≡ ok v → app_name_pattern name ≡ true
  unfolding validate_app_name
  valid_name name h = ground arith

  check_app_lem :
      (name : Bytes) (u : Unit {0}) → check_app message get_app name ≡ accepted u → IsTarget name
  unfolding check_app
  check_app_lem name u h = elim (Bool-cases (str_eq name (codes "*"))) [
    | inl e ↦ inl (eq_of-str_eq name (codes "*") e)
    | inr e ↦
        let all =
          or_refuse message (λ _. codes "invalid app name") (validate_app_name name) >>= λ _.
          or_refuse message message (get_app name) >>= must_be_found message in
        let (v, checked, rest) =
          accepted_lem (or_refuse message (λ _. codes "invalid app name") (validate_app_name name))
            (λ _. or_refuse message message (get_app name) >>= must_be_found message) u
            (else_of (str_eq name (codes "*")) (accepted tt) all (accepted u) e h) in
        let (o, got, there) =
          accepted_lem (or_refuse message message (get_app name)) (must_be_found message) u rest in
        inr (
          valid_name name (
              ok_of-or_refuse message (λ _. codes "invalid app name") (validate_app_name name) v
                checked),
          found_lem name o u (ok_of-or_refuse message message (get_app name) o got) there,
        )
  ]

  check_cron_lem :
      (expr : Bytes) (u : Unit {0})
      → check_cron message cron expr ≡ accepted u
      → validate cron expr ≡ ok tt
  unfolding check_cron
  check_cron_lem expr u h = elim (Bool-cases (is_empty expr)) [
    | inl e ↦ absurd (ground (arith, e, h))
    | inr e ↦
        ok_of-or_refuse message (λ _. codes "invalid cron expression") (validate cron expr) u
          (else_of (is_empty expr) (refused (codes "cron expression is required"))
            (or_refuse message (λ _. codes "invalid cron expression") (validate cron expr))
            (accepted u) e h)
  ]

  -- What `createSchedule` inserts: the target is all apps or an app that is there under a valid
  -- name, each service is one, the cron expression parses, the time zone is known, and the schedule
  -- is enabled.
  pub check_form-IsAcceptable :
      (fallback : Bytes) (form : Form) (input : ScheduleInput)
      → check_form message cron get_app fallback form ≡ accepted input
      → IsAcceptable input
  unfolding check_form
  check_form-IsAcceptable fallback form input h =
      let (a, h0, h1) = accepted_lem (unless_failed message form.failed) _ input h in
      let (b, h2, h3) = accepted_lem (check_app message get_app _) _ input h1 in
      let (services, h4, h5) =
        accepted_lem (or_refuse message message (parse_services form.services)) _ input h3 in
      let (d, h6, h7) =
        accepted_lem (check_cron message cron (trim_space form.cron_expr)) _ input h5 in
      let (l, h8, h9) =
        accepted_lem (or_refuse message (λ _. codes "invalid timezone") (cron.load_location _)) _
          input h7 in
      subst IsAcceptable (accepted_inj _ input h9) (record {
        target = check_app_lem _ b h2;
        services =
            services_valid form.services services
              (ok_of-or_refuse message message (parse_services form.services) services h4);
        cron_expr = check_cron_lem (trim_space form.cron_expr) d h6;
        timezone = (
          l,
          ok_of-or_refuse message (λ _. codes "invalid timezone") (cron.load_location _) l h8,
        );
        enabled = refl;
      })
