-- ===== src/Registry/Store/SaveLoad.antt =====
-- What a write of the registry file leaves of the disk, by how it ended.
use infra_shelf.Common.{
  Bytes, true, false, [], ◌∷◌, ◌++◌, some, Result, ok, err, Error, ◌≡◌, refl, ap, arith, Bool-cases,
  inl, inr, ◌∙◌, length, length-append,
}
use infra_shelf.Common.Text.{codes, str_eq, str_eq_iff, str_eq_refl, trim_space, is_empty}
use infra_shelf.Common.Dict.{lookup}
use infra_shelf.Registry.Store.Crypto.{Codec}
use infra_shelf.Registry.Store.{
  FilePath, path_eq, Node, absent, unreadable, content, Disk, update, load_dotenv, registry_secret,
  dotenv_name, write_and_rename, atomic_write, first_value, find_secret, Fault, no_fault,
  mkdir_fault, write_fault, rename_fault, next_fault, later_faults,
}

path_eq_refl : (p : FilePath) → path_eq p p ≡ true
unfolding path_eq
path_eq_refl [] = refl
path_eq_refl (a ∷ p) = ground (arith, str_eq_refl a, path_eq_refl p)

tmp_ne_dotenv : (file : Bytes) → str_eq (file ++ codes ".tmp") dotenv_name ≡ false
unfolding str_eq
tmp_ne_dotenv [] = refl
tmp_ne_dotenv (a ∷ file) = elim (Bool-cases (str_eq ((a ∷ file) ++ codes ".tmp") dotenv_name)) [
  | inr differ ↦ differ
  | inl same ↦
      let e = (str_eq_iff ((a ∷ file) ++ codes ".tmp") dotenv_name).0 same in
      absurd (omega (arith, ap length e, length-append (a ∷ file) (codes ".tmp")))
]

tmp_ne_file : (file : Bytes) → str_eq (file ++ codes ".tmp") file ≡ false
tmp_ne_file file = elim (Bool-cases (str_eq (file ++ codes ".tmp") file)) [
  | inr differ ↦ differ
  | inl same ↦
      let e = (str_eq_iff (file ++ codes ".tmp") file).0 same in
      absurd (omega (arith, ap length e, length-append file (codes ".tmp")))
]

other_file :
    {D : Type 0} (files : FilePath → Node D) (file : Bytes) (dir : FilePath) (n : Node D)
    (ds : FilePath)
    → str_eq file dotenv_name ≡ false
    → update files (file ∷ dir) n (dotenv_name ∷ ds) ≡ files (dotenv_name ∷ ds)
unfolding path_eq
other_file files file dir n ds h = rw h

module _ (c : Codec) where
  -- a file that is no .env file does not count in the walk
  load_dotenv-update :
      (files : FilePath → Node c.Doc) (file : Bytes) (dir : FilePath) (n : Node c.Doc)
      (from : FilePath)
      → str_eq file dotenv_name ≡ false
      → load_dotenv c (update files (file ∷ dir) n) from ≡ load_dotenv c files from
  unfolding load_dotenv
  load_dotenv-update files file dir n [] h = cc (other_file files file dir n [] h)
  load_dotenv-update files file dir n (d ∷ ds) h =
      cc (other_file files file dir n (d ∷ ds) h, load_dotenv-update files file dir n ds h)

  -- A write to the registry or to its sibling keeps the secret.
  pub registry_secret-update :
      (disk disk' : Disk c.Doc) (from : FilePath)
      → disk'.env ≡ disk.env
      → load_dotenv c disk'.files from ≡ load_dotenv c disk.files from
      → registry_secret c disk' from ≡ registry_secret c disk from
  unfolding registry_secret
  registry_secret-update disk disk' from e l = cc

module _ (c : Codec) (file : Bytes) (dir : FilePath)
    (not_env : str_eq file dotenv_name ≡ false) where
  -- What an atomic write does: the content, all of it, or an error and the old content.
  pub record Written (payload : c.Doc) (before : Disk c.Doc) (r : Result (Unit {0}))
      (after : Disk c.Doc) : Type 0 where
    pub secret_kept : registry_secret c after dir ≡ registry_secret c before dir
    pub done : (u : Unit {0}) → r ≡ ok u → after.files (file ∷ dir) ≡ content payload
    pub failed : (e : Error) → r ≡ err e → after.files (file ∷ dir) ≡ before.files (file ∷ dir)

  secret_in :
      (disk disk' : Disk c.Doc) (n : Node c.Doc) (name : Bytes)
      → str_eq name dotenv_name ≡ false
      → disk'.env ≡ disk.env
      → disk'.files ≡ update disk.files (name ∷ dir) n
      → registry_secret c disk' dir ≡ registry_secret c disk dir
  secret_in disk disk' n name ne e f =
      registry_secret-update c disk disk' dir e
        (ap (λ fs. load_dotenv c fs dir) f ∙ load_dotenv-update c disk.files name dir n dir ne)

  written_lem :
      (f : Fault) (payload : c.Doc) (disk : Disk c.Doc)
      → let r = write_and_rename c f (file ∷ dir) payload disk in Written payload disk r.0 r.1
  unfolding write_and_rename path_eq
  written_lem mkdir_fault payload disk = record {
    secret_kept = refl;
    done = λ u h. cc;
    failed = λ e h. refl;
  }
  written_lem write_fault payload disk = record {
    secret_kept = secret_in disk _ unreadable (file ++ codes ".tmp") (tmp_ne_dotenv file) refl refl;
    done = λ u h. cc;
    failed = λ e h. rw (tmp_ne_file file);
  }
  written_lem rename_fault payload disk = record {
    secret_kept = secret_in disk _ absent (file ++ codes ".tmp") (tmp_ne_dotenv file) refl refl;
    done = λ u h. cc;
    failed = λ e h. rw (tmp_ne_file file);
  }
  written_lem no_fault payload disk = record {
    secret_kept =
        secret_in (record disk { files = update disk.files ((file ++ codes ".tmp") ∷ dir) absent })
          _ (content payload) file not_env refl refl
        ∙ secret_in disk _ absent (file ++ codes ".tmp") (tmp_ne_dotenv file) refl refl;
    done = λ u h. rw (path_eq_refl (file ∷ dir));
    failed = λ e h. cc;
  }

  pub atomic_write_lem :
      (payload : c.Doc) (disk : Disk c.Doc)
      → let r = atomic_write c (file ∷ dir) payload disk in Written payload disk r.0 r.1
  unfolding atomic_write
  atomic_write_lem payload disk =
      let w =
        written_lem (next_fault disk.faults) payload
          (record disk { faults = later_faults disk.faults }) in
      record {
        secret_kept =
            w.secret_kept
            ∙ registry_secret-update c disk (record disk { faults = later_faults disk.faults }) dir
                refl refl;
        done = w.done;
        failed = w.failed;
      }

module _ (c : Codec) where
  -- The secret of the environment comes first.
  pub registry_secret_env :
      (disk : Disk c.Doc) (dir : FilePath) (secret : Bytes)
      → lookup (codes "INFRA_SHELF_SECRET") disk.env ≡ some secret
      → trim_space secret ≡ secret
      → is_empty secret ≡ false
      → registry_secret c disk dir ≡ ok secret
  unfolding registry_secret find_secret first_value
  registry_secret_env disk dir secret found trimmed some_text = ground arith
