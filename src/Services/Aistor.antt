-- ===== src/Services/Aistor.antt =====
-- internal/services/aistor/aistor.go
use infra_shelf.Common.{
  ℕ, Bytes, Bool, ◌&&◌, ◌||◌, ◌==◌, leb, List, [], ◌∷◌, ◌++◌, Option, none, some, Result, ok, err,
  ◌/◌, ◌%◌, if◌then◌else◌,
}
use infra_shelf.Common.Text.{codes, trim_space}
use infra_shelf.Registry.{AiStorConfig}
use infra_shelf.Registry.Names.{validate_app_name, is_lower, is_digit}
use infra_shelf.Registry.Env.{hex_digit}
use infra_shelf.Registry.Store.{FilePath}
use infra_shelf.Machine.{Host, M, pure, lift, ignore, ◌>>=◌, ◌>>◌, docker, write_file, open_file}
use infra_shelf.Services.Credentials.{get_root_creds}
use infra_shelf.Services.Password.{generate}

abbrev pub container : Bytes
container = codes "infra-aistor"

abbrev alias : Bytes
alias = codes "local"

abbrev query_safe : ℕ → Bool
query_safe c =
    is_lower c
    || (leb b'A' c && leb c b'Z')
    || is_digit c
    || c == b'-'
    || c == b'_'
    || c == b'.'
    || c == b'~'

-- `url.QueryEscape` of net/url: a space is a plus sign.
unfoldable pub query_escape : Bytes → Bytes
query_escape [] = []
query_escape (c ∷ s) =
    let rest = query_escape s in
    if query_safe c
    then c ∷ rest
    else if c == 32
    then b'+' ∷ rest
    else b'%' ∷ hex_digit (c / 16) ∷ hex_digit (c % 16) ∷ rest

abbrev pub policy_name : Bytes → Bytes
policy_name app_name = app_name ++ codes "-rw"

-- The JSON of the policy, as json.Marshal writes it: the keys of a map in order.
abbrev pub bucket_policy : Bytes → Bytes
bucket_policy app_name =
    codes
      "{\"Statement\":[{\"Action\":[\"s3:*\"],\"Effect\":\"Allow\",\"Resource\":[\"arn:aws:s3:::"
    ++ (app_name
        ++ (codes "\",\"arn:aws:s3:::"
            ++ (app_name ++ codes "/*\"]}],\"Version\":\"2012-10-17\"}")))

-- `strings.ReplaceAll(policy, "'", "'\\''")`
quote_shell : Bytes → Bytes
quote_shell [] = []
quote_shell (c ∷ s) =
    let rest = quote_shell s in if c == b'\'' then codes "'\\''" ++ rest else c ∷ rest

-- `local/<app>`
abbrev bucket_of : Bytes → Bytes
bucket_of app_name = alias ++ (codes "/" ++ app_name)

policy_script : Bytes → Bytes
unfolding quote_shell
policy_script app_name =
    codes "printf '%s' '"
    ++ (quote_shell (bucket_policy app_name)
        ++ (codes "' > /tmp/aistor-policy-"
            ++ (app_name
                ++ (codes ".json && mc admin policy create local "
                    ++ (policy_name app_name
                        ++ (codes " /tmp/aistor-policy-"
                            ++ (app_name
                                ++ (codes ".json && rm -f /tmp/aistor-policy-"
                                    ++ (app_name ++ codes ".json")))))))))

module _ (h : Host) where
  mc_host_env : Result Bytes
  mc_host_env = elim (get_root_creds (codes "AISTOR_ROOT_USER") (codes "AISTOR_ROOT_PASSWORD") h) [
    | err e ↦ err e
    | ok creds ↦ ok (
        codes "MC_HOST_local=http://"
        ++ (query_escape creds.user
            ++ (codes ":" ++ (query_escape creds.pass ++ codes "@localhost:9000"))))
  ]

  unfoldable pub mc : List Bytes → M Bytes
  unfolding mc_host_env
  mc args = do
    host_env ← lift mc_host_env
    out ← docker h (codes "exec" ∷ codes "-e" ∷ host_env ∷ container ∷ codes "mc" ∷ args) none
    pure (trim_space out)

  unfoldable pub mc_shell : Bytes → Option Bytes → M Bytes
  unfolding mc_host_env
  mc_shell script none = do
    host_env ← lift mc_host_env
    docker h
        (codes "exec" ∷ codes "-e" ∷ host_env ∷ container ∷ codes "sh" ∷ codes "-c" ∷ script ∷ [])
        none
  mc_shell script (some input) = do
    host_env ← lift mc_host_env
    docker h
        (codes "exec"
          ∷ codes "-i"
          ∷ codes "-e"
          ∷ host_env
          ∷ container
          ∷ codes "sh"
          ∷ codes "-c"
          ∷ script
          ∷ [])
        (some input)

  unfoldable pub provision : Bytes → M AiStorConfig
  unfolding mc mc_shell policy_script
  provision app_name = do
    lift (validate_app_name app_name)
    secret_key ← generate h 24
    mc (codes "mb" ∷ codes "--ignore-existing" ∷ bucket_of app_name ∷ [])
    mc (codes "admin" ∷ codes "user" ∷ codes "add" ∷ alias ∷ app_name ∷ secret_key ∷ [])
    mc_shell (policy_script app_name) none
    mc (
        codes "admin"
        ∷ codes "policy"
        ∷ codes "attach"
        ∷ alias
        ∷ policy_name app_name
        ∷ codes "--user"
        ∷ app_name
        ∷ [])
    pure (record {
      bucket = app_name;
      access_key = app_name;
      secret_key = secret_key;
      endpoint = codes "http://aistor:9000";
    })

  unfoldable pub backup : Bytes → FilePath → M (Unit {0})
  unfolding mc_shell
  backup app_name dest_path = do
    lift (validate_app_name app_name)
    write_file h dest_path []
    archive ←
        mc_shell
          (codes
              "set -e; rm -rf /tmp/aistor-bk && mkdir -p /tmp/aistor-bk && mc mirror --quiet --overwrite local/"
            ++ (app_name
                ++ (codes " /tmp/aistor-bk/"
                    ++ (app_name
                        ++ (codes "/ >/dev/null && tar -cf - -C /tmp/aistor-bk "
                            ++ (app_name ++ codes "; rc=$?; rm -rf /tmp/aistor-bk; exit $rc"))))))
          none
    write_file h dest_path archive

  unfoldable pub restore : Bytes → FilePath → M (Unit {0})
  unfolding mc_shell
  restore app_name src_path = do
    lift (validate_app_name app_name)
    f ← open_file src_path
    mc_shell
        (codes
            "set -e; rm -rf /tmp/aistor-rs && mkdir -p /tmp/aistor-rs && tar -xf - -C /tmp/aistor-rs && mc mb --ignore-existing local/"
          ++ (app_name
              ++ (codes " >/dev/null && mc mirror --quiet --overwrite --remove /tmp/aistor-rs/"
                  ++ (app_name
                      ++ (codes "/ local/"
                          ++ (app_name
                              ++ codes " >/dev/null; rc=$?; rm -rf /tmp/aistor-rs; exit $rc"))))))
        (some f)
    pure tt

  -- Each step is tried, whatever the others do.
  unfoldable pub teardown : Bytes → M (Unit {0})
  unfolding mc
  teardown app_name = do
    lift (validate_app_name app_name)
    ignore (mc (codes "rb" ∷ codes "--force" ∷ codes "--dangerous" ∷ bucket_of app_name ∷ []))
    ignore (
        mc (
          codes "admin"
          ∷ codes "policy"
          ∷ codes "detach"
          ∷ alias
          ∷ policy_name app_name
          ∷ codes "--user"
          ∷ app_name
          ∷ []))
    ignore (mc (codes "admin" ∷ codes "policy" ∷ codes "rm" ∷ alias ∷ policy_name app_name ∷ []))
    ignore (mc (codes "admin" ∷ codes "user" ∷ codes "remove" ∷ alias ∷ app_name ∷ []))
    pure tt
