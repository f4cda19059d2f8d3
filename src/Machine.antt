-- ===== src/Machine.antt =====
-- The machine that the engine runs on: docker, the files under the backups directory, randomness.
-- What docker and the clock answer is a parameter, `Host`; what the program has done is a state.
pub mod Status
use infra_shelf.Common.{
  ℕ, zero, suc, Bytes, Bool, List, [], ◌∷◌, Option, none, some, Result, ok, err, Error, ◌+◌, ◌%◌,
  ◌==◌, ◌||◌, io_failed, not_exist, if◌then◌else◌, length, All, ◌<◌, ◌≡◌, refl, arith,
}
use mathlib.Core.List.{reverse}
use infra_shelf.Common.Text.{codes}
use infra_shelf.Common.Dict.{Dict}
use infra_shelf.Registry.Store.{FilePath, path_eq}
use infra_shelf.Json.{Json}

-- A `docker` command: its arguments, and what is piped into it.
pub record Call : Type 0 where
  pub args : List Bytes
  pub stdin : Option Bytes

pub record Host : Type 0 where
  -- the outcome of a command, after the commands before it, the last one first
  pub answer : List Call → Call → Result Bytes
  -- `docker inspect --format={{.State.Running}}`
  pub running : List Call → Bytes → Bool
  -- the n-th byte of crypto/rand, and `time.Now()` after some commands, in two formats
  pub random : ℕ → ℕ
  pub created_at : List Call → Bytes
  pub timestamp : List Call → Bytes
  -- whether a file can be written
  pub writable : List Call → FilePath → Bool
  -- whether a directory can be read
  pub readable : List Call → FilePath → Bool
  -- the environment, and the contents of the .env files that `envFileCandidates` finds
  pub env : Dict Bytes
  pub dotenv_files : List Bytes
  -- encoding/json
  pub parse_json : Bytes → Option Json
  pub print_json : Json → Bytes
  -- `fmt.Sprintf("%v", x)`
  pub format_any : Json → Bytes

pub record Machine : Type 0 where
  pub calls : List Call
  pub drawn : ℕ
  pub files : List (FilePath × Bytes)

abbrev pub M {ℓ} : Type ℓ → Type ℓ
M A = Machine → Result A × Machine

module _ {ℓ} {A : Type ℓ} where
  abbrev pub pure : A → M A
  pure a m = (ok a, m)

  abbrev pub fail : Error → M A
  fail e m = (err e, m)

  abbrev pub lift : Result A → M A
  lift r m = (r, m)

module _ {ℓ κ} {A : Type ℓ} {B : Type κ} where
  abbrev pub continue : Result A → (A → M B) → M B
  continue (ok a) f m = f a m
  continue (err e) f m = (err e, m)

  infixl 5 ◌>>=◌ ◌>>◌
  abbrev pub ◌>>=◌ : M A → (A → M B) → M B
  ◌>>=◌ x f m = let (r, m') = x m in continue r f m'

  abbrev pub ◌>>◌ : M A → M B → M B
  x >> y = x >>= λ _. y

-- `_, _ = f()`: the outcome does not count.
abbrev pub ignore {ℓ} : {A : Type ℓ} → M A → M (Unit {0})
ignore x m = let (r, m') = x m in (ok tt, m')

-- `strings.TrimRight(s, "\r\n\t ")`
abbrev in_cutset : ℕ → Bool
in_cutset c = c == 13 || c == 10 || c == 9 || c == 32

cut_left : Bytes → Bytes
cut_left [] = []
cut_left (c ∷ s) = if in_cutset c then cut_left s else c ∷ s

trim_output : Bytes → Bytes
unfolding cut_left
trim_output s = reverse (cut_left (reverse s))

abbrev trimmed : Result Bytes → Result Bytes
trimmed (ok out) = ok (trim_output out)
trimmed (err e) = err e

module _ (h : Host) where
  -- A `docker` command that is run for its whole output.
  unfoldable pub docker : List Bytes → Option Bytes → M Bytes
  docker args stdin m =
      let call : Call = record { args = args; stdin = stdin } in
      (h.answer m.calls call, record m { calls = call ∷ m.calls })

  -- `docker.Exec` and `docker.ExecWithStdin`
  unfoldable pub exec_with_stdin : Bytes → Option Bytes → List Bytes → M Bytes
  unfolding trim_output
  exec_with_stdin container none command m =
      let (r, m') = docker (codes "exec" ∷ container ∷ command) none m in (trimmed r, m')
  exec_with_stdin container (some input) command m =
      let (r, m') = docker (codes "exec" ∷ codes "-i" ∷ container ∷ command) (some input) m in
      (trimmed r, m')

  unfoldable pub exec : Bytes → List Bytes → M Bytes
  exec container command = exec_with_stdin container none command

  unfoldable pub is_running : Machine → Bytes → Bool
  is_running m container = h.running m.calls container

  -- `rand.Read(buf)` for a buffer of n bytes.
  random_bytes : ℕ → ℕ → Bytes
  random_bytes from zero = []
  random_bytes from (suc n) = (h.random from % 256) ∷ random_bytes (from + 1) n

  unfoldable pub read_random : ℕ → M Bytes
  unfolding random_bytes
  read_random n m = (ok (random_bytes m.drawn n), record m { drawn = m.drawn + n })

module _ (h : Host) where
  random_bytes_lem :
      (from n : ℕ)
      → (length (random_bytes h from n) ≡ n) × All (λ b. b < 256) (random_bytes h from n)
  unfolding random_bytes
  random_bytes_lem from zero = (refl, tt)
  random_bytes_lem from (suc n) =
      let (size, bytes) = random_bytes_lem (from + 1) n in
      (omega (arith, size), (omega arith, bytes))

  -- `rand.Read` fills the buffer with bytes.
  pub read_random_lem :
      (n : ℕ) (m : Machine)
      → (bs : Bytes) × ((read_random h n m).0 ≡ ok bs) × (length bs ≡ n) × All (λ b. b < 256) bs
  unfolding read_random
  read_random_lem n m =
      let (size, bytes) = random_bytes_lem m.drawn n in
      (random_bytes h m.drawn n, refl, size, bytes)

-- Files by their paths.
unfoldable pub find_file : FilePath → List (FilePath × Bytes) → Option Bytes
unfolding path_eq
find_file p [] = none
find_file p ((q, d) ∷ fs) = if path_eq q p then some d else find_file p fs

unfoldable pub remove_file : FilePath → List (FilePath × Bytes) → List (FilePath × Bytes)
unfolding path_eq
remove_file p [] = []
remove_file p ((q, d) ∷ fs) =
    let rest = remove_file p fs in if path_eq q p then rest else (q, d) ∷ rest

-- `os.WriteFile`
unfoldable pub write_file : Host → FilePath → Bytes → M (Unit {0})
unfolding remove_file
write_file h p d m =
    if h.writable m.calls p
    then (ok tt, record m { files = (p, d) ∷ remove_file p m.files })
    else (err (io_failed (codes "write")), m)

-- `os.Remove`
unfoldable pub remove : FilePath → M (Unit {0})
unfolding remove_file find_file
remove p m = elim (find_file p m.files) [
  | none ↦ (err (not_exist (codes "remove")), m)
  | some _ ↦ (ok tt, record m { files = remove_file p m.files })
]

-- `os.Open`, `os.ReadFile`
unfoldable pub open_file : FilePath → M Bytes
unfolding find_file
open_file p m = elim (find_file p m.files) [
  | none ↦ (err (not_exist (codes "open")), m)
  | some d ↦ (ok d, m)
]

-- The names of the files in a directory.
unfoldable pub names_in : FilePath → List (FilePath × Bytes) → List Bytes
unfolding path_eq
names_in dir [] = []
names_in dir (([], d) ∷ fs) = names_in dir fs
names_in dir ((name ∷ p, d) ∷ fs) =
    let rest = names_in dir fs in if path_eq p dir then name ∷ rest else rest

-- `os.ReadDir`, without the directories: nothing where it fails.
unfoldable pub read_dir : Host → FilePath → Machine → Option (List Bytes)
unfolding names_in
read_dir h dir m = if h.readable m.calls dir then some (names_in dir m.files) else none
