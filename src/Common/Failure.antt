-- ===== src/Common/Failure.antt =====
-- Go's `(value, error)`: a call gives a value or an error. The errors are those of the packages,
-- with the values that their messages are formatted from.
use mathlib.Core.List.{List}
use Prim.Native.Nat.{ℕ}

abbrev pub Bytes : Type 0
Bytes = List ℕ

pub data Error : Type 0 where
  -- registry
  invalid_app_name invalid_service : Bytes → Error
  unsupported_format : Bytes → Bytes → Error
  invalid_payload invalid_nonce secret_required decode_failed open_failed : Error
  -- envspec
  no_env_names : Error
  invalid_env_name : Bytes → Error
  duplicate_envs : List Bytes → Error
  -- shelfcore
  no_services backup_not_found : Error
  app_not_found app_already_exists not_detachable non_backupable no_matching_services :
      Bytes → Error
  container_not_running unknown_service path_traversal cannot_detect_service : Bytes → Error
  incomplete_config : Error
  -- a docker command that exited non-zero, and what it wrote
  exec_failed : Bytes → Error
  -- the operating system
  io_failed not_exist : Bytes → Error
  -- config
  root_not_found : Error
  -- backupservice
  s3_not_configured : Error
  -- the database: database/sql's ErrNoRows, a constraint that does not hold, another failure
  no_rows constraint_failed : Error
  sql_failed : Bytes → Error
  -- an error with the context that `%w` wraps round it
  wrapped : Bytes → Error → Error

pub data Result {ℓ} (A : Type ℓ) : Type ℓ where
  ok : A → Result A
  err : Error → Result A

infixl 5 ◌>>=◌ ◌>>◌
abbrev pub ◌>>=◌ {ℓ κ} : {A : Type ℓ} {B : Type κ} → Result A → (A → Result B) → Result B
ok a >>= f = f a
err e >>= f = err e

abbrev pub ◌>>◌ {ℓ κ} : {A : Type ℓ} {B : Type κ} → Result A → Result B → Result B
m >> k = m >>= λ _. k
