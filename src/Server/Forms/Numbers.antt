-- ===== src/Server/Forms/Numbers.antt =====
-- internal/web/server/server.go: `parseNonNegativeInt` reads what is printed.
use infra_shelf.Common.{
  ℕ, Bytes, Bool, true, false, [], ◌∷◌, ◌++◌, Option, none, some, zero, suc, ◌==◌, ltb, ◌≡◌, refl,
  ◌≤◌, ◌<◌, ◌+◌, ◌*◌, ◌-◌, ◌/◌, ◌%◌, ◌^◌, arith, if◌then◌else◌, Bool-cases, inl, inr, ap, ◌∙◌,
}
use infra_shelf.Registry.Names.{is_digit}
use infra_shelf.BackupService.{decimal, decimal_digits}
use infra_shelf.Common.{All, All-append}
use infra_shelf.Common.Text.{is_empty}
use infra_shelf.Common.Text.Trim.{IsWord, trim_space-IsWord}
use infra_shelf.Server.Forms.{
  unsigned, signed, in_range, or_fallback, digits_value, parse_non_negative_int,
}

abbrev then_digit : ℕ → Option ℕ → Option ℕ
then_digit c none = none
then_digit c (some m) = if is_digit c then some (m * 10 + (c - b'0')) else none

digits_value-snoc :
    (s : Bytes) (n c : ℕ) → digits_value n (s ++ c ∷ []) ≡ then_digit c (digits_value n s)
unfolding digits_value
digits_value-snoc [] n c = refl
digits_value-snoc (d ∷ s) n c = ground (arith, digits_value-snoc s (n * 10 + (d - b'0')) c)

-- The digits are those of the number, when there is fuel for it.
digits_value-decimal_digits :
    (fuel n : ℕ) → n ≤ fuel → digits_value 0 (decimal_digits fuel n) ≡ some n
unfolding decimal_digits digits_value
digits_value-decimal_digits zero n h = ground arith
digits_value-decimal_digits (suc fuel) n h = elim (Bool-cases (ltb n 10)) [
  | inl e ↦ ground arith
  | inr e ↦ rw e (
      digits_value-snoc (decimal_digits fuel (n / 10)) 0 (b'0' + n % 10)
      ∙ ap (then_digit (b'0' + n % 10)) (digits_value-decimal_digits fuel (n / 10) (omega arith))
      ∙ ground arith)
]

abbrev IsDigits : Bytes → Type 0
IsDigits = All (λ c. is_digit c ≡ true)

digit_lem : (n : ℕ) → is_digit (b'0' + n % 10) ≡ true
digit_lem n = ground arith

decimal_digits-IsDigits : (fuel n : ℕ) → IsDigits (decimal_digits fuel n)
unfolding decimal_digits
decimal_digits-IsDigits zero n = (digit_lem n, tt)
decimal_digits-IsDigits (suc fuel) n = on_test (ltb n 10) (decimal_digits-IsDigits fuel (n / 10))
  where
    on_test :
        (b : Bool)
        → IsDigits (decimal_digits fuel (n / 10))
        → IsDigits ((if b then [] else decimal_digits fuel (n / 10)) ++ (b'0' + n % 10) ∷ [])
    on_test true h = (digit_lem n, tt)
    on_test false h =
        All-append (λ c. is_digit c ≡ true) (decimal_digits fuel (n / 10)) ((b'0' + n % 10) ∷ []) h
          (digit_lem n, tt)

snoc_full : (s : Bytes) (c : ℕ) → is_empty (s ++ c ∷ []) ≡ false
snoc_full [] c = refl
snoc_full (d ∷ s) c = refl

decimal_digits_full : (fuel n : ℕ) → is_empty (decimal_digits fuel n) ≡ false
unfolding decimal_digits
decimal_digits_full zero n = refl
decimal_digits_full (suc fuel) n = snoc_full _ (b'0' + n % 10)

IsDigits-IsWord : (s : Bytes) → IsDigits s → IsWord s
IsDigits-IsWord [] h = tt
IsDigits-IsWord (c ∷ s) (d, h) = (ground arith, IsDigits-IsWord s h)

in_range_lem :
    (fallback n : ℕ) (o : Option ℕ)
    → o ≡ some n
    → n < 2 ^ 63
    → or_fallback fallback (in_range o) ≡ n
in_range_lem fallback n none v l = absurd (ground arith)
in_range_lem fallback n (some m) v l = ground arith

signed_lem :
    (fallback n : ℕ) (s : Bytes)
    → IsDigits s
    → is_empty s ≡ false
    → digits_value 0 s ≡ some n
    → n < 2 ^ 63
    → signed fallback s ≡ n
unfolding signed unsigned digits_value
signed_lem fallback n [] d e v l = absurd (ground arith)
signed_lem fallback n (c ∷ s) (d, ds) e v l =
    let minus : (c == b'-') ≡ false = ground arith in
    let plus : (c == b'+') ≡ false = ground arith in
    rw (minus, plus) (in_range_lem fallback n (digits_value 0 (c ∷ s)) v l)

-- `parseNonNegativeInt` of a printed number below 2^63 is the number, whatever the fallback.
pub parse_non_negative_int-decimal :
    (n fallback : ℕ) → n < 2 ^ 63 → parse_non_negative_int (decimal n) fallback ≡ n
unfolding parse_non_negative_int decimal
parse_non_negative_int-decimal n fallback l =
    let digits = decimal_digits-IsDigits n n in
    rw (trim_space-IsWord (decimal_digits n n) (IsDigits-IsWord (decimal_digits n n) digits)) (
      signed_lem fallback n (decimal_digits n n) digits (decimal_digits_full n n)
        (digits_value-decimal_digits n n (omega arith)) l)
