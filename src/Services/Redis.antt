-- ===== src/Services/Redis.antt =====
-- internal/services/redis/redis.go; `Restore` is in the child.
pub mod Restore
use infra_shelf.Common.{
  ℕ, Bytes, Bool, true, false, ◌||◌, List, [], ◌∷◌, ◌++◌, Option, none, some, Result, ok, err,
  Error, decode_failed, if◌then◌else◌,
}
use infra_shelf.Common.Text.{codes, is_empty, str_eq, trim_space}
use infra_shelf.Registry.{RedisConfig}
use infra_shelf.Registry.Names.{validate_app_name}
use infra_shelf.Registry.Store.{FilePath}
use infra_shelf.Machine.{
  Host, Machine, M, pure, fail, lift, ◌>>=◌, ◌>>◌, exec, write_file, open_file,
}
use infra_shelf.Services.Credentials.{admin_password}
use infra_shelf.Services.Password.{generate}

abbrev pub container : Bytes
container = codes "infra-redis"

pub backup_script : Bytes
backup_script =
    codes
      "local keys = redis.call('KEYS', ARGV[1])\nlocal result = {}\nfor i, key in ipairs(keys) do\n  local t = redis.call('TYPE', key)['ok']\n  local val\n  if t == 'string' then val = redis.call('GET', key)\n  elseif t == 'hash' then val = redis.call('HGETALL', key)\n  elseif t == 'list' then val = redis.call('LRANGE', key, 0, -1)\n  elseif t == 'set' then val = redis.call('SMEMBERS', key)\n  elseif t == 'zset' then val = redis.call('ZRANGE', key, 0, -1, 'WITHSCORES')\n  end\n  result[#result+1] = {key, t, val}\nend\nreturn cjson.encode(result)"

pub delete_script : Bytes
delete_script =
    codes
      "local keys = redis.call('keys', ARGV[1]) for i=1,#keys do redis.call('del', keys[i]) end return #keys"

-- `<app>:*`
abbrev pub key_glob : Bytes → Bytes
key_glob app_name = app_name ++ codes ":*"

module _ (h : Host) where
  unfoldable pub admin_cli : List Bytes → M Bytes
  admin_cli args =
      let pass = trim_space (admin_password h) in
      exec h container
        (codes "redis-cli" ∷ (if is_empty pass then args else codes "-a" ∷ pass ∷ args))

  unfoldable pub provision : Bytes → Bool → M RedisConfig
  unfolding admin_cli
  provision app_name full_access = do
    lift (validate_app_name app_name)
    password ← generate h 24
    let prefix = if full_access then [] else app_name ++ codes ":"
    let key_pattern =
        if full_access then codes "~*" else codes "~" ++ ((app_name ++ codes ":") ++ codes "*")
    admin_cli (
        codes "ACL"
        ∷ codes "SETUSER"
        ∷ app_name
        ∷ codes "on"
        ∷ (codes ">" ++ password)
        ∷ key_pattern
        ∷ codes "+@all"
        ∷ [])
    admin_cli (codes "ACL" ∷ codes "SAVE" ∷ [])
    pure (record { username = app_name; password = password; prefix = prefix })

  unfoldable pub backup : Bytes → FilePath → M (Unit {0})
  unfolding admin_cli
  backup app_name dest_path = do
    lift (validate_app_name app_name)
    json_out ← admin_cli (codes "EVAL" ∷ backup_script ∷ codes "0" ∷ key_glob app_name ∷ [])
    write_file h dest_path json_out

  unfoldable pub teardown : Bytes → M (Unit {0})
  unfolding admin_cli
  teardown app_name = do
    lift (validate_app_name app_name)
    admin_cli (codes "EVAL" ∷ delete_script ∷ codes "0" ∷ key_glob app_name ∷ [])
    admin_cli (codes "ACL" ∷ codes "DELUSER" ∷ app_name ∷ [])
    admin_cli (codes "ACL" ∷ codes "SAVE" ∷ [])
    pure tt
