-- ===== src/Services/Password/Laws.antt =====
-- Passwords have the length that is asked for, and need no quoting.
use infra_shelf.Common.{
  ℕ, zero, suc, Bytes, true, false, ◌&&◌, ◌||◌, [], ◌∷◌, ◌+◌, ◌*◌, ◌/◌, ◌%◌, ◌<◌, ◌≤◌, ◌==◌, ltb,
  leb, length, take, ok, ◌≡◌, refl, arith, All, Bool-cases, inl, inr,
}
use infra_shelf.Services.Password.{url_digit, encode_to_string, password_of, generate}
use infra_shelf.Machine.{Host, Machine, read_random_lem}

-- A letter, a digit, `-` or `_`.
abbrev pub IsUrlChar : ℕ → Type 0
IsUrlChar c =
    (leb b'A' c && leb c b'Z'
      || (leb b'a' c && leb c b'z' || (leb b'0' c && leb c b'9' || (c == b'-' || c == b'_'))))
    ≡ true

abbrev pub IsByte : ℕ → Type 0
IsByte c = c < 256

url_digit_lem : (n : ℕ) → n < 64 → IsUrlChar (url_digit n)
unfolding url_digit
url_digit_lem n h = grind arith

encode-IsUrlChar : (s : Bytes) → All IsByte s → All IsUrlChar (encode_to_string s)
unfolding encode_to_string
encode-IsUrlChar [] h = tt
encode-IsUrlChar (a ∷ []) (ha, h) =
    (url_digit_lem (a / 4) (omega arith), (url_digit_lem (a % 4 * 16) (omega arith), tt))
encode-IsUrlChar (a ∷ b ∷ []) (ha, (hb, h)) = (
  url_digit_lem (a / 4) (omega arith),
  (
    url_digit_lem (a % 4 * 16 + b / 16) (omega arith),
    (url_digit_lem (b % 16 * 4) (omega arith), tt),
  ),
)
encode-IsUrlChar (a ∷ b ∷ c ∷ s) (ha, (hb, (hc, h))) = (
  url_digit_lem (a / 4) (omega arith),
  (
    url_digit_lem (a % 4 * 16 + b / 16) (omega arith),
    (
      url_digit_lem (b % 16 * 4 + c / 64) (omega arith),
      (url_digit_lem (c % 64) (omega arith), encode-IsUrlChar s h),
    ),
  ),
)

length-encode : (s : Bytes) → length s ≤ length (encode_to_string s)
unfolding encode_to_string
length-encode [] = omega arith
length-encode (a ∷ []) = omega arith
length-encode (a ∷ b ∷ []) = omega arith
length-encode (a ∷ b ∷ c ∷ s) = omega (arith, length-encode s)

length-take : (n : ℕ) (s : Bytes) → n ≤ length s → length (take n s) ≡ n
length-take zero s h = refl
length-take (suc n) [] h = absurd (omega arith)
length-take (suc n) (c ∷ s) h = omega (arith, length-take n s (omega arith))

take-IsUrlChar : (n : ℕ) (s : Bytes) → All IsUrlChar s → All IsUrlChar (take n s)
take-IsUrlChar zero s h = tt
take-IsUrlChar (suc n) [] h = tt
take-IsUrlChar (suc n) (c ∷ s) (hc, h) = (hc, take-IsUrlChar n s h)

ltb-true : (a b : ℕ) → ltb a b ≡ true → a ≤ b
ltb-true a b h = grind arith

ltb-false : (a b : ℕ) → ltb a b ≡ false → b ≤ a
ltb-false a b h = grind arith

-- The password that `Generate` makes of as many random bytes as it was asked for characters has
-- exactly that many characters, all of them letters, digits, `-` or `_`.
pub password_of_lem :
    (n : ℕ) (buf : Bytes)
    → length buf ≡ n
    → All IsByte buf
    → (length (password_of n buf) ≡ n) × All IsUrlChar (password_of n buf)
unfolding password_of
password_of_lem n buf size bytes = elim (Bool-cases (ltb n (length (encode_to_string buf)))) [
  | inl longer ↦ rw longer (
    length-take n (encode_to_string buf) (ltb-true n _ longer),
    take-IsUrlChar n (encode_to_string buf) (encode-IsUrlChar buf bytes),
  )
  | inr fits ↦
      rw fits (omega (arith, ltb-false n _ fits, length-encode buf), encode-IsUrlChar buf bytes)
]

module _ (h : Host) where
  -- `Generate` of a positive length never fails, and gives a password of exactly that many
  -- characters, all of them letters, digits, `-` or `_`, whatever the random bytes.
  pub generate_lem :
      (n : ℕ) (m : Machine)
      → (p : Bytes) × ((generate h (suc n) m).0 ≡ ok p) × (length p ≡ suc n) × All IsUrlChar p
  unfolding generate
  generate_lem n m =
      let (bs, got, size, bytes) = read_random_lem h (suc n) m in
      let (size', chars) = password_of_lem (suc n) bs size bytes in
      (password_of (suc n) bs, rw got refl, size', chars)
