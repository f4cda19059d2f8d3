-- ===== src/Engine/Restore/Names.antt =====
-- The names of backup files tell their service.
use infra_shelf.Common.{
  Bytes, Bool, true, false, ◌&&◌, List, [], ◌∷◌, ◌++◌, Option, none, some, ◌≡◌, refl, sym, ap, ◌∙◌,
  arith, filter, Bool-cases, inl, inr,
}
use infra_shelf.Common.Text.{codes, has_prefix, elem, str_eq_iff, str_eq_refl}
use infra_shelf.Common.Order.{str_lt, str_lt_trans, str_lt_irrefl, str_lt_connected, str_lt_asymm}
use infra_shelf.Registry.{
  ServiceName, postgres, redis, rabbitmq, aistor, mongodb, signoz, service_string,
}
use infra_shelf.Machine.{Host, Machine, read_dir}
use infra_shelf.Registry.Store.{FilePath}
use infra_shelf.Engine.{non_backupable_names}
use infra_shelf.Engine.Backup.{file_name}
use infra_shelf.Engine.Restore.{
  detect_service, detect_among, later_of, last_name, latest_among, find_latest_backup,
}

-- The name that `Backup` gives a file of a service, at any time, is one by which `RestoreFromFile`
-- finds that service.
pub detect_service-file_name :
    (s : ServiceName) (ts : Bytes)
    → non_backupable_names s ≡ false
    → detect_service (file_name s ts) ≡ some s
unfolding detect_service detect_among file_name has_prefix
detect_service-file_name postgres ts h = refl
detect_service-file_name redis ts h = refl
detect_service-file_name rabbitmq ts h = refl
detect_service-file_name aistor ts h = refl
detect_service-file_name mongodb ts h = refl
detect_service-file_name signoz ts h = absurd (cc h)

elem-filter :
    (x : Bytes) (p : Bytes → Bool) (xs : List Bytes) → elem x (filter p xs) ≡ (elem x xs && p x)
unfolding elem
elem-filter x p [] = refl
elem-filter x p (y ∷ ys) = ground (arith, elem-filter x p ys, str_eq_iff y x)

-- The last of the names, in the order of texts.
abbrev IsLast : List Bytes → Option Bytes → Type 0
IsLast names none = names ≡ []
IsLast names (some b) =
    (elem b names ≡ true) × ((n : Bytes) → elem n names ≡ true → str_lt b n ≡ false)

IsLast-step :
    (x : Bytes) (xs : List Bytes) (best : Option Bytes)
    → IsLast xs best
    → IsLast (x ∷ xs) (later_of x best)
unfolding elem later_of
IsLast-step x xs none h =
    (ground (arith, str_eq_refl x), λ n e. ground (arith, str_eq_iff x n, str_lt_irrefl x))
IsLast-step x xs (some y) (found, most) = elim (Bool-cases (str_lt x y)) [
  | inl before ↦
      rw before (ground arith, λ n e. ground (arith, str_eq_iff x n, str_lt_asymm x y, most n))
  | inr after ↦ rw after (
    ground (arith, str_eq_refl x),
    λ n e. ground (
      arith,
      str_eq_iff x n,
      str_lt_irrefl x,
      most n,
      str_lt_trans y x n,
      str_lt_connected x y,
      str_lt_trans x n y,
    ),
  )
]

last_name_lem : (xs : List Bytes) → IsLast xs (last_name xs)
unfolding last_name
last_name_lem [] = refl
last_name_lem (x ∷ xs) = IsLast-step x xs (last_name xs) (last_name_lem xs)

-- A file of the service is one whose name begins with the service and an underscore.
abbrev pub is_backup_of : ServiceName → Bytes → Bool
is_backup_of s n = has_prefix n (service_string s ++ codes "_")

abbrev pub IsLatest : ServiceName → List Bytes → Option Bytes → Type 0
IsLatest s names none = (n : Bytes) → elem n names ≡ true → is_backup_of s n ≡ false
IsLatest s names (some b) =
    (elem b names ≡ true)
    × (is_backup_of s b ≡ true)
    × ((n : Bytes) → elem n names ≡ true → is_backup_of s n ≡ true → str_lt b n ≡ false)

and_true : (a b : Bool) → (a && b) ≡ true → (a ≡ true) × (b ≡ true)
and_true a b h = ground arith

none_lem :
    (s : ServiceName) (names : List Bytes)
    → filter (is_backup_of s) names ≡ []
    → (n : Bytes) → elem n names ≡ true
    → is_backup_of s n ≡ false
unfolding elem
none_lem s names e n found = ground (arith, ap (elem n) e, elem-filter n (is_backup_of s) names)

IsLatest-of :
    (s : ServiceName) (names : List Bytes) (o : Option Bytes)
    → IsLast (filter (is_backup_of s) names) o
    → IsLatest s names o
IsLatest-of s names none h = none_lem s names h
IsLatest-of s names (some b) (found, most) =
    let (here, good) = and_true _ _ (sym (elem-filter b (is_backup_of s) names) ∙ found) in
    (here, good, λ n e p. most n (elem-filter n (is_backup_of s) names ∙ rw (e, p) refl))

-- What is found in a directory, given its names where it can be read.
abbrev pub IsFound : ServiceName → Option (List Bytes) → Option Bytes → Type 0
IsFound s none o = o ≡ none
IsFound s (some names) o = IsLatest s names o

latest_among-IsFound :
    (s : ServiceName) (names : Option (List Bytes)) → IsFound s names (latest_among s names)
unfolding latest_among
latest_among-IsFound s none = refl
latest_among-IsFound s (some names) =
    IsLatest-of s names _ (last_name_lem (filter (is_backup_of s) names))

-- `findLatestBackup` answers with nothing where the directory cannot be read, and otherwise only
-- where it holds no file of the service; what it answers with is a file of the service that is
-- there, and none of its files is newer.
pub find_latest_backup_lem :
    (h : Host) (dir : FilePath) (s : ServiceName) (m : Machine)
    → IsFound s (read_dir h dir m) (find_latest_backup h dir s m)
unfolding find_latest_backup
find_latest_backup_lem h dir s m = latest_among-IsFound s (read_dir h dir m)
