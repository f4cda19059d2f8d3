-- ===== src/Registry/Store/RoundTrip.antt =====
-- internal/registry/store_save.go: what `Load` gives after `Save` and after `EncryptInPlace`.
use infra_shelf.Common.{
  ℕ, Bytes, false, ◌∷◌, Option, none, some, Result, ok, err, Error, ◌≡◌, refl, ap, arith, ◌∙◌, ◌+◌,
  leb, subst, Bool-cases, inl, inr, ◌>>=◌, all, All, true, ltb, ◌<◌, [],
}
use infra_shelf.Common.Text.{codes, str_eq}
use infra_shelf.Common.Dict.{IsSorted}
use infra_shelf.Registry.{Registry}
use infra_shelf.Registry.Coerced.{coerced, IsNamed, IsClean, empty-IsClean}
use infra_shelf.Registry.Store.Crypto.{Codec, Envelope}
use infra_shelf.Registry.Store.SaveLoad.{Written, atomic_write_lem, registry_secret-update}
use infra_shelf.Registry.Store.{
  FilePath, Node, absent, unreadable, content, Disk, registry_secret, dotenv_name, stored, load,
  load_node, load_content, parse_registry, decrypt_registry_content, encrypt_registry, atomic_write,
  write_encrypted, save, save_with, encrypt_loaded, encrypt_with, encrypt_in_place,
}

ok_inj {ℓ} : {A : Type ℓ} {a b : A} → ok a ≡ ok b → a ≡ b
ok_inj h = cc

bytes_below : (s : Bytes) → all (λ b. ltb b 128) s ≡ true → All (λ b. b < 128) s
bytes_below [] h = tt
bytes_below (b ∷ s) h = (ground (arith, h), bytes_below s (ground (arith, h)))

module _ (c : Codec) where
  plain_lem :
      (r : Registry) (e : Option (Envelope c.Text)) (secret : Result Bytes)
      → IsSorted r.apps
      → IsNamed c.valid r.apps
      → c.unmarshal_envelope (c.marshal_indent r) ≡ e
      → load_content c e (c.marshal_indent r) secret ≡ ok (coerced c.valid r)
  unfolding load_content parse_registry
  plain_lem r none secret sorted named h = rw (c.unmarshal-marshal_indent r sorted named)
  plain_lem r (some e) secret sorted named h =
      rw (c.registry_not_encrypted r e h, c.unmarshal-marshal_indent r sorted named)

  load_plain :
      (r : Registry) (secret : Result Bytes)
      → IsSorted r.apps
      → IsNamed c.valid r.apps
      → load_node c (content (c.marshal_indent r)) secret ≡ ok (coerced c.valid r)
  unfolding load_node
  load_plain r secret sorted named =
      plain_lem r (c.unmarshal_envelope (c.marshal_indent r)) secret sorted named refl

  -- A registry that stands in the file in the clear is loaded, its texts coerced.
  pub load_clear :
      (file : FilePath) (disk : Disk c.Doc) (r : Registry)
      → disk.files file ≡ content (c.marshal_indent r)
      → IsSorted r.apps
      → IsNamed c.valid r.apps
      → load c file disk ≡ ok (coerced c.valid r)
  unfolding load
  load_clear file disk r stands sorted named = rw stands (load_plain r _ sorted named)

  size_ok :
      (r : Registry) (k : Bytes) (n : ℕ)
      → leb (c.size (c.seal k (c.nonce n) (c.marshal_compact r))) 16 ≡ false
  size_ok r k n = ground (
    arith,
    c.size-seal k (c.nonce n) (c.marshal_compact r) (c.size-nonce n),
    c.size-marshal_compact r,
  )

  envelope_read :
      (r : Registry) (k : Bytes) (n : ℕ)
      → c.unmarshal_envelope (c.marshal_envelope (encrypt_registry c r k n))
        ≡ some (encrypt_registry c r k n)
  unfolding encrypt_registry
  envelope_read r k n =
      c.unmarshal-marshal_envelope (encrypt_registry c r k n) (c.nonce n)
        (c.seal k (c.nonce n) (c.marshal_compact r))
        (c.valid-ascii _ (bytes_below (codes "AES-256-GCM") refl))
        (c.valid-ascii _ (bytes_below (codes "SHA-256") refl)) refl refl

  load_encrypted :
      (r : Registry) (k : Bytes) (n : ℕ)
      → IsSorted r.apps
      → IsNamed c.valid r.apps
      → load_node c (content (c.marshal_envelope (encrypt_registry c r k n))) (ok k)
        ≡ ok (coerced c.valid r)
  unfolding load_node load_content decrypt_registry_content encrypt_registry parse_registry str_eq
  load_encrypted r k n sorted named = rw (
    envelope_read r k n,
    c.decode64-encode64 (c.seal k (c.nonce n) (c.marshal_compact r)),
    size_ok r k n,
    c.decode64-encode64 (c.nonce n),
    c.size-nonce n,
    c.unseal-seal k (c.nonce n) (c.marshal_compact r) (c.size-nonce n),
    c.unmarshal-marshal_compact r sorted named,
  )

  parse_registry-IsClean :
      (d : c.Doc) (r : Registry) → parse_registry c d ≡ ok r → IsClean c.valid r
  unfolding parse_registry
  parse_registry-IsClean d r h = c.unmarshal-IsClean d r (ground arith)

  opened-IsClean :
      (plain : Result c.Doc) (r : Registry)
      → (do d ← plain; parse_registry c d) ≡ ok r
      → IsClean c.valid r
  opened-IsClean (ok d) r h = parse_registry-IsClean d r h
  opened-IsClean (err e) r h = absurd (cc h)

  load_content-IsClean :
      (e : Option (Envelope c.Text)) (d : c.Doc) (secret : Result Bytes) (r : Registry)
      → load_content c e d secret ≡ ok r
      → IsClean c.valid r
  unfolding load_content
  load_content-IsClean none d secret r h = parse_registry-IsClean d r h
  load_content-IsClean (some file) d secret r h = elim (Bool-cases file.encrypted) [
    | inl e ↦ opened-IsClean (decrypt_registry_content c file secret) r (ground (arith, h, e))
    | inr e ↦ parse_registry-IsClean d r (ground (arith, h, e))
  ]

  load_node-IsClean :
      (n : Node c.Doc) (secret : Result Bytes) (r : Registry)
      → load_node c n secret ≡ ok r
      → IsClean c.valid r
  unfolding load_node
  load_node-IsClean absent secret r h = subst (IsClean c.valid) (ok_inj h) (empty-IsClean c.valid)
  load_node-IsClean unreadable secret r h = absurd (cc h)
  load_node-IsClean (content d) secret r h =
      load_content-IsClean (c.unmarshal_envelope d) d secret r h

  -- The texts of a registry that is loaded are valid UTF-8.
  pub load-IsClean :
      (path : FilePath) (disk : Disk c.Doc) (r : Registry)
      → load c path disk ≡ ok r
      → IsClean c.valid r
  unfolding load
  load-IsClean path disk r h = load_node-IsClean (disk.files path) _ r h

module _ (c : Codec) (file : Bytes) (dir : FilePath)
    (not_env : str_eq file dotenv_name ≡ false) where
  -- What a write of a registry does to what `load` gives: the registry, or what was there before.
  pub record Saves (reg : Registry) (before : Disk c.Doc) (r : Result (Unit {0}))
      (after : Disk c.Doc) : Type 0 where
    pub done : (u : Unit {0}) → r ≡ ok u → load c (file ∷ dir) after ≡ ok reg
    pub failed : (e : Error) → r ≡ err e → load c (file ∷ dir) after ≡ load c (file ∷ dir) before
    pub secret_kept : registry_secret c after dir ≡ registry_secret c before dir

  Saves-of_Written :
      (reg : Registry) (payload : c.Doc) (before after : Disk c.Doc) (r : Result (Unit {0}))
      → Written c file dir not_env payload before r after
      → load_node c (content payload) (registry_secret c before dir) ≡ ok reg
      → Saves reg before r after
  unfolding load
  Saves-of_Written reg payload before after r w l = record {
    done = λ u h.
        ap (λ n. load_node c n (registry_secret c after dir)) (w.done u h)
        ∙ (ap (load_node c (content payload)) w.secret_kept ∙ l);
    failed = λ e h. cc (w.failed e h, w.secret_kept);
    secret_kept = w.secret_kept;
  }

  write_plain-Saves :
      (reg : Registry) (disk : Disk c.Doc)
      → IsSorted reg.apps
      → IsNamed c.valid reg.apps
      → let r = atomic_write c (file ∷ dir) (c.marshal_indent reg) disk in
        Saves (coerced c.valid reg) disk r.0 r.1
  write_plain-Saves reg disk sorted named =
      Saves-of_Written (coerced c.valid reg) (c.marshal_indent reg) disk _ _
        (atomic_write_lem c file dir not_env (c.marshal_indent reg) disk)
        (load_plain c reg (registry_secret c disk dir) sorted named)

  write_encrypted-Saves :
      (reg : Registry) (k : Bytes) (disk : Disk c.Doc)
      → IsSorted reg.apps
      → IsNamed c.valid reg.apps
      → registry_secret c disk dir ≡ ok k
      → let r = write_encrypted c (file ∷ dir) reg k disk in
        Saves (coerced c.valid reg) disk r.0 r.1
  unfolding write_encrypted load
  write_encrypted-Saves reg k disk sorted named secret =
      let drawn = record disk { drawn = disk.drawn + 1 } in
      let payload = c.marshal_envelope (encrypt_registry c reg k disk.drawn) in
      let same = registry_secret-update c disk drawn dir refl refl in
      let s =
        Saves-of_Written (coerced c.valid reg) payload drawn _ _
          (atomic_write_lem c file dir not_env payload drawn)
          (ap (load_node c (content payload)) (same ∙ secret)
            ∙ load_encrypted c reg k disk.drawn sorted named) in
      record {
        done = s.done;
        failed = λ e h. s.failed e h ∙ ap (load_node c (disk.files (file ∷ dir))) same;
        secret_kept = s.secret_kept ∙ same;
      }

  save_with-Saves :
      (secret : Result Bytes) (reg : Registry) (disk : Disk c.Doc)
      → registry_secret c disk dir ≡ secret
      → IsSorted reg.apps
      → IsNamed c.valid reg.apps
      → let r = save_with c secret (file ∷ dir) reg disk in Saves (coerced c.valid reg) disk r.0 r.1
  unfolding save_with
  save_with-Saves (ok k) reg disk h sorted named = write_encrypted-Saves reg k disk sorted named h
  save_with-Saves (err e) reg disk h sorted named = write_plain-Saves reg disk sorted named

  -- `Save`, whether there is a secret or not: on success `load` gives the registry that was saved,
  -- with version 1 if it had none, each text as JSON keeps it (coerced to valid UTF-8); on any
  -- failure `load` gives what it gave before; and the secret stays what it was. The entries are in
  -- the order of their names, the names are valid UTF-8, and the file is no .env file.
  pub save_lem :
      (reg : Registry) (disk : Disk c.Doc)
      → IsSorted reg.apps
      → IsNamed c.valid reg.apps
      → Saves
          (coerced c.valid (stored reg))
          disk
          (save c (file ∷ dir) reg disk).0
          (save c (file ∷ dir) reg disk).1
  unfolding save
  save_lem reg disk sorted named =
      save_with-Saves (registry_secret c disk dir) (stored reg) disk refl sorted named

  encrypt_loaded-Saves :
      (k : Bytes) (disk : Disk c.Doc) {reg : Registry} (l : Result Registry)
      → registry_secret c disk dir ≡ ok k
      → l ≡ ok reg
      → IsSorted reg.apps
      → IsClean c.valid reg
      → let r = encrypt_loaded c k l (file ∷ dir) disk in Saves reg disk r.0 r.1
  unfolding encrypt_loaded
  encrypt_loaded-Saves k disk (err e) h l sorted clean = absurd (cc)
  encrypt_loaded-Saves k disk {reg} (ok r) h l sorted clean = rw (ok_inj l) (
      subst (λ kept. let r = write_encrypted c (file ∷ dir) reg k disk in Saves kept disk r.0 r.1)
        clean.texts (write_encrypted-Saves reg k disk sorted clean.names h))

  -- `EncryptInPlace`, where there is a secret, on a registry that is in order and in a file that is
  -- no .env file: on success `load` gives the registry that it gave before; on a failure too it
  -- gives what it gave before; and the secret stays what it was.
  pub encrypt_in_place_lem :
      (k : Bytes) (reg : Registry) (disk : Disk c.Doc)
      → registry_secret c disk dir ≡ ok k
      → load c (file ∷ dir) disk ≡ ok reg
      → IsSorted reg.apps
      → Saves reg disk
          (encrypt_in_place c (file ∷ dir) disk).0
          (encrypt_in_place c (file ∷ dir) disk).1
  unfolding encrypt_in_place encrypt_with
  encrypt_in_place_lem k reg disk h l sorted = rw h (
      encrypt_loaded-Saves k disk (load c (file ∷ dir) disk) h l sorted
        (load-IsClean c (file ∷ dir) disk reg l))
