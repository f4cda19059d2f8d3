-- ===== src/Server/Forms/Access.antt =====
-- internal/web/auth/basic.go: who is served.
use infra_shelf.Common.{
  Bytes, true, Option, none, some, length, ◌≡◌, refl, ◌⊎◌, inl, inr, ◌↔◌, arith, Bool-cases, ap,
}
use infra_shelf.Common.Text.{codes, str_eq, eq_of-str_eq, str_eq_iff}
use infra_shelf.Server.Forms.{served, same, credentials_match, basic}

same_iff : (a b : Bytes) → (same a b ≡ true) ↔ (a ≡ b)
unfolding same
same_iff a b =
    (λ h. eq_of-str_eq a b (ground arith), λ e. ground (arith, str_eq_iff a b, ap length e))

match_iff :
    (username password : Bytes) (sent : Option (Bytes × Bytes))
    → (credentials_match username password sent ≡ true) ↔ (sent ≡ some (username, password))
match_iff username password none = (λ h. absurd (ground arith), λ h. absurd (ground arith))
match_iff username password (some (user, pass)) = (
  λ h.
      let u = (same_iff user username).0 (ground arith) in
      let p = (same_iff pass password).0 (ground arith) in rw (u, p) refl,
  λ e. ground (arith, same_iff user username, same_iff pass password),
)

-- `Basic` serves a request exactly if it is for /logout or carries the user name and the password.
pub basic_iff :
    (username password path : Bytes) (sent : Option (Bytes × Bytes))
    → (basic username password path sent ≡ served)
      ↔ ((path ≡ codes "/logout") ⊎ (sent ≡ some (username, password)))
unfolding basic str_eq
basic_iff username password path sent = (
  λ h. elim (Bool-cases (str_eq path (codes "/logout"))) [
    | inl e ↦ inl (eq_of-str_eq path (codes "/logout") e)
    | inr e ↦ elim (Bool-cases (credentials_match username password sent)) [
      | inl f ↦ inr ((match_iff username password sent).0 f)
      | inr f ↦ absurd (ground (arith, e, f, h))
    ]
  ],
  λ h. elim h [
    | inl e ↦ rw e refl
    | inr e ↦ ground (arith, (match_iff username password sent).1 e)
  ],
)
