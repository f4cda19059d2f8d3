-- ===== src/Services/Password.antt =====
-- internal/passwordgen/passwordgen.go, with the base64 of encoding/base64 (RawURLEncoding).
pub mod Laws
use infra_shelf.Common.{
  ℕ, zero, suc, Bytes, Bool, true, false, List, [], ◌∷◌, ◌+◌, ◌-◌, ◌*◌, ◌/◌, ◌%◌, ◌==◌, ltb, length,
  take, if◌then◌else◌,
}
use infra_shelf.Machine.{Host, M, ◌>>=◌, pure, read_random}

-- The alphabet A-Z a-z 0-9 - _.
unfoldable pub url_digit : ℕ → ℕ
url_digit n =
    if ltb n 26
    then b'A' + n
    else if ltb n 52
    then b'a' + (n - 26)
    else if ltb n 62
    then b'0' + (n - 52)
    else if n == 62
    then b'-'
    else b'_'

-- Three bytes are four digits of six bits; what is left at the end gives one digit more than bytes.
unfoldable pub encode_to_string : Bytes → Bytes
unfolding url_digit
encode_to_string [] = []
encode_to_string (a ∷ []) = url_digit (a / 4) ∷ url_digit (a % 4 * 16) ∷ []
encode_to_string (a ∷ b ∷ []) =
    url_digit (a / 4) ∷ url_digit (a % 4 * 16 + b / 16) ∷ url_digit (b % 16 * 4) ∷ []
encode_to_string (a ∷ b ∷ c ∷ s) =
    url_digit (a / 4)
    ∷ url_digit (a % 4 * 16 + b / 16)
    ∷ url_digit (b % 16 * 4 + c / 64)
    ∷ url_digit (c % 64)
    ∷ encode_to_string s

-- `encoded[:length]` where it is longer.
unfoldable pub password_of : ℕ → Bytes → Bytes
unfolding encode_to_string
password_of n buf =
    let encoded = encode_to_string buf in if ltb n (length encoded) then take n encoded else encoded

-- `length` is not negative; 0 stands for what is not positive.
unfoldable pub generate : Host → ℕ → M Bytes
unfolding password_of
generate h zero = do buf ← read_random h 24; pure (password_of 24 buf)
generate h (suc n) = do buf ← read_random h (suc n); pure (password_of (suc n) buf)
