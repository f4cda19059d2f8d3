-- ===== src/Services/Rabbitmq.antt =====
-- internal/services/rabbitmq/rabbitmq.go
pub mod Filter
use infra_shelf.Common.{
  Bytes, Bool, false, ◌||◌, List, [], ◌∷◌, Option, none, some, incomplete_config, decode_failed,
  if◌then◌else◌,
}
use infra_shelf.Common.Text.{codes, is_empty, str_eq, trim_space, split}
use infra_shelf.Json.{Json, Items, Fields, null, array, object, nil, cons, end, field, get, as_text}
use infra_shelf.Registry.{RabbitMqConfig}
use infra_shelf.Registry.Names.{validate_app_name}
use infra_shelf.Registry.Store.{FilePath}
use infra_shelf.Machine.{
  Host, M, pure, fail, lift, ignore, ◌>>=◌, ◌>>◌, exec, exec_with_stdin, write_file, open_file,
}
use infra_shelf.Services.Password.{generate}

abbrev pub container : Bytes
container = codes "infra-rabbitmq"

abbrev ctl : List Bytes → List Bytes
ctl args = codes "rabbitmqctl" ∷ args

abbrev all_rights : Bytes
all_rights = codes ".*"

-- `filterByKey`: the objects whose field holds the value.
filter_items : Items → Bytes → Bytes → Items
filter_items nil key value = nil
filter_items (cons (object m) rest) key value =
    let kept = filter_items rest key value in
    if str_eq (as_text (get key m)) value then cons (object m) kept else kept
filter_items (cons _ rest) key value = filter_items rest key value

unfoldable pub filter_by_key : Json → Bytes → Bytes → Items
unfolding filter_items
filter_by_key (array items) key value = filter_items items key value
filter_by_key _ key value = nil

-- `json:"rabbit_version,omitempty"`: a version that is nil is left out.
version_field : Json → Fields → Fields
version_field null rest = rest
version_field v rest = field (codes "rabbit_version") v rest

abbrev full_of : Json → Fields
full_of (object full) = full
full_of _ = end

-- The definitions of one vhost.
unfoldable pub filtered : Fields → Bytes → Json
unfolding version_field filter_by_key
filtered full app_name =
    let pick = λ (section key : Bytes). array (filter_by_key (get section full) key app_name) in
    object (
      version_field (get (codes "rabbit_version") full) (
        field (codes "vhosts") (pick (codes "vhosts") (codes "name")) (
          field (codes "users") (pick (codes "users") (codes "name")) (
            field (codes "permissions") (pick (codes "permissions") (codes "vhost")) (
              field (codes "queues") (pick (codes "queues") (codes "vhost")) (
                field (codes "exchanges") (pick (codes "exchanges") (codes "vhost")) (
                  field (codes "bindings") (pick (codes "bindings") (codes "vhost"))
                    (field (codes "policies") (pick (codes "policies") (codes "vhost")) end))))))))

contains_line_in : List Bytes → Bytes → Bool
contains_line_in [] target = false
contains_line_in (line ∷ lines) target =
    str_eq (trim_space line) target || contains_line_in lines target

unfoldable pub contains_line : Bytes → Bytes → Bool
unfolding contains_line_in
contains_line out target = contains_line_in (split out b'\n') target

-- `strings.SplitN(line, "\t", 2)[0]`
abbrev first_part : List Bytes → Bytes
first_part [] = []
first_part (p ∷ ps) = p

contains_user_in : List Bytes → Bytes → Bool
contains_user_in [] target = false
contains_user_in (line ∷ lines) target =
    str_eq (trim_space (first_part (split line b'\t'))) target || contains_user_in lines target

unfoldable pub contains_user : Bytes → Bytes → Bool
unfolding contains_user_in
contains_user out target = contains_user_in (split out b'\n') target

module _ (h : Host) where
  run_steps : List (List Bytes) → M (Unit {0})
  run_steps [] = pure tt
  run_steps (args ∷ rest) = do exec h container (ctl args); run_steps rest

  unfoldable pub provision : Bytes → M RabbitMqConfig
  unfolding run_steps
  provision app_name = do
    lift (validate_app_name app_name)
    password ← generate h 24
    run_steps (
        (codes "add_vhost" ∷ app_name ∷ [])
        ∷ (codes "add_user" ∷ app_name ∷ password ∷ [])
        ∷ (codes "set_permissions"
            ∷ codes "-p"
            ∷ app_name
            ∷ app_name
            ∷ all_rights
            ∷ all_rights
            ∷ all_rights
            ∷ [])
        ∷ (codes "set_user_tags" ∷ app_name ∷ codes "management" ∷ [])
        ∷ [])
    pure (record { vhost = app_name; username = app_name; password = password })

  write_definitions : Option Json → Bytes → FilePath → M (Unit {0})
  write_definitions none app_name dest_path = fail decode_failed
  write_definitions (some full) app_name dest_path =
      write_file h dest_path (h.print_json (filtered (full_of full) app_name))

  unfoldable pub backup : Bytes → FilePath → M (Unit {0})
  unfolding write_definitions
  backup app_name dest_path = do
    lift (validate_app_name app_name)
    raw ← exec h container (ctl (codes "export_definitions" ∷ codes "-" ∷ []))
    write_definitions (h.parse_json raw) app_name dest_path

  unfoldable pub restore : FilePath → M (Unit {0})
  restore src_path = do
    payload ← open_file src_path
    exec_with_stdin h container (some payload)
        (ctl (codes "import_definitions" ∷ codes "/dev/stdin" ∷ []))
    pure tt

  -- The vhost is added where it is not listed.
  ensure_vhost : Bytes → M (Unit {0})
  ensure_vhost vhost = do
    vhosts ← exec h container (ctl (codes "list_vhosts" ∷ codes "--no-table-headers" ∷ []))
    if contains_line vhosts vhost
        then pure tt
        else do exec h container (ctl (codes "add_vhost" ∷ vhost ∷ [])); pure tt

  -- The user is added, or has its password reset.
  ensure_user : Bytes → Bytes → M (Unit {0})
  ensure_user username password = do
    users ← exec h container (ctl (codes "list_users" ∷ codes "--no-table-headers" ∷ []))
    exec h container (
        ctl (
          (if contains_user users username then codes "change_password" else codes "add_user")
          ∷ username
          ∷ password
          ∷ []))
    pure tt

  unfoldable pub ensure : RabbitMqConfig → M (Unit {0})
  unfolding ensure_vhost ensure_user
  ensure cfg =
      if is_empty cfg.vhost || is_empty cfg.username || is_empty cfg.password
      then fail incomplete_config
      else do
        ensure_vhost cfg.vhost
        ensure_user cfg.username cfg.password
        exec h container (
            ctl (
              codes "set_permissions"
              ∷ codes "-p"
              ∷ cfg.vhost
              ∷ cfg.username
              ∷ all_rights
              ∷ all_rights
              ∷ all_rights
              ∷ []))
        exec h container (ctl (codes "set_user_tags" ∷ cfg.username ∷ codes "management" ∷ []))
        pure tt

  unfoldable pub teardown : Bytes → M (Unit {0})
  teardown app_name = do
    lift (validate_app_name app_name)
    ignore (exec h container (ctl (codes "delete_user" ∷ app_name ∷ [])))
    exec h container (ctl (codes "delete_vhost" ∷ app_name ∷ []))
    pure tt
