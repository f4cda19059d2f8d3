-- ===== src/Registry/Store/Crypto.antt =====
-- What the store uses of encoding/json, encoding/base64, crypto/aes, crypto/cipher and
-- crypto/rand: a parameter, with the behaviour that those packages document.
use infra_shelf.Common.{ℕ, ◌+◌, ◌<◌, ◌≡◌, false, Bool, Bytes, Option, some, All}
use infra_shelf.Common.Dict.{IsSorted}
use infra_shelf.Registry.{Registry}
use infra_shelf.Registry.Coerced.{coerced, IsNamed, IsClean}

-- `encryptedRegistryFile`; the nonce and the ciphertext are base64 texts.
pub record Envelope (T : Type 0) : Type 0 where
  pub version : ℕ
  pub encrypted : Bool
  pub algorithm : Bytes
  pub kdf : Bytes
  pub nonce : T
  pub ciphertext : T

pub record Codec : Type 1 where
  -- byte strings as documents, and base64 texts
  pub Doc : Type 0
  pub Text : Type 0
  pub size : Doc → ℕ
  -- a document as the text of a .env file
  pub text : Doc → Bytes
  pub marshal_indent : Registry → Doc
  pub marshal_compact : Registry → Doc
  pub unmarshal_registry : Doc → Option Registry
  pub marshal_envelope : Envelope Text → Doc
  pub unmarshal_envelope : Doc → Option (Envelope Text)
  pub encode64 : Doc → Text
  pub decode64 : Text → Option Doc
  -- AES-256-GCM under the SHA-256 of a secret
  pub seal : Bytes → Doc → Doc → Doc
  pub unseal : Bytes → Doc → Doc → Option Doc
  -- the n-th nonce that crypto/rand gives
  pub nonce : ℕ → Doc
  -- JSON writes and reads strings coerced to valid UTF-8, invalid bytes replaced by U+FFFD
  pub valid : Bytes → Bytes
  -- a text of ASCII bytes is valid
  pub valid-ascii : (s : Bytes) → All (λ b. b < 128) s → valid s ≡ s
  -- JSON gives back what it wrote, the texts coerced; the entries of a map are in the order of
  -- their keys, and the keys are valid, so that no two become one
  pub unmarshal-marshal_indent :
      (r : Registry)
      → IsSorted r.apps
      → IsNamed valid r.apps
      → unmarshal_registry (marshal_indent r) ≡ some (coerced valid r)
  pub unmarshal-marshal_compact :
      (r : Registry)
      → IsSorted r.apps
      → IsNamed valid r.apps
      → unmarshal_registry (marshal_compact r) ≡ some (coerced valid r)
  -- the strings that JSON reads are valid, whatever the document has
  pub unmarshal-IsClean : (d : Doc) (r : Registry) → unmarshal_registry d ≡ some r → IsClean valid r
  pub unmarshal-marshal_envelope :
      (e : Envelope Text) (n d : Doc)
      → valid e.algorithm ≡ e.algorithm
      → valid e.kdf ≡ e.kdf
      → e.nonce ≡ encode64 n
      → e.ciphertext ≡ encode64 d
      → unmarshal_envelope (marshal_envelope e) ≡ some e
  -- a registry has no field "encrypted", which is then false
  pub registry_not_encrypted :
      (r : Registry) (e : Envelope Text)
      → unmarshal_envelope (marshal_indent r) ≡ some e
      → e.encrypted ≡ false
  pub decode64-encode64 : (d : Doc) → decode64 (encode64 d) ≡ some d
  -- a nonce of GCM has 12 bytes, its tag 16
  pub unseal-seal : (k : Bytes) (n d : Doc) → size n ≡ 12 → unseal k n (seal k n d) ≡ some d
  pub size-seal : (k : Bytes) (n d : Doc) → size n ≡ 12 → size (seal k n d) ≡ size d + 16
  pub size-marshal_compact : (r : Registry) → 0 < size (marshal_compact r)
  pub size-nonce : (n : ℕ) → size (nonce n) ≡ 12
