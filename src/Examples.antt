-- ===== src/Examples.antt =====
-- The theorems at concrete inputs.
mod Ascii
mod Fixtures
mod Samples
mod Running
use infra_shelf.Common.{
  ℕ, Bytes, Bool, true, false, ◌||◌, List, [], ◌∷◌, Option, none, some, Result, ok, err, ◌≡◌, refl,
  All, length, arith, ◌↔◌, filter,
}
use infra_shelf.Common.Text.{
  codes, str_eq, elem, split, join, has_prefix, trim_space, trim_left, trim_right,
}
use infra_shelf.Common.Text.Trim.{IsWord}
use infra_shelf.Common.Order.{str_lt}
use infra_shelf.Common.Text.Elem.{IsDistinct}
use infra_shelf.Common.Dict.{lookup, IsSorted}
use infra_shelf.Registry.{Registry, AppEntry, Services, empty_services, redis}
use infra_shelf.Registry.Names.{parse_services, app_name_pattern}
use infra_shelf.Registry.Names.Laws.{Outcome, parse_services_lem}
use infra_shelf.Registry.Dotenv.{parse_dotenv}
use infra_shelf.Registry.Dotenv.Lines.{
  Line, entry, IsKey, IsPlain, IsLine, print_lines, entries, parse_dotenv-join,
}
use infra_shelf.Registry.Env.{postgres_env}
use infra_shelf.Registry.Env.ReadBack.{IsReadable, parse_dotenv-postgres_env}
use infra_shelf.Registry.Store.{stored, save, encrypt_in_place, registry_secret}
use infra_shelf.Registry.Store.SaveLoad.{registry_secret_env}
use infra_shelf.Registry.Coerced.{coerced, coerced_entry, IsNamed}
use infra_shelf.Examples.Ascii.{ascii, ascii_keys}
use infra_shelf.Registry.Store.RoundTrip.{Saves, save_lem, encrypt_in_place_lem}
use infra_shelf.Envspec.{Options, trimmed_parts, parse_envs}
use infra_shelf.Envspec.Laws.{IsEnvName, IsEnvList, parse_envs_iff, parse_envs-join}
use infra_shelf.Envspec.Targets.{setup_names, build_setup_targets_valid}
use infra_shelf.Services.Password.{generate}
use infra_shelf.Services.Password.Laws.{IsUrlChar, generate_lem}
use infra_shelf.Machine.{Machine, read_dir}
use infra_shelf.Engine.{World, ProvisionOptions}
use infra_shelf.Engine.Provision.{Progress, provision_all}
use infra_shelf.Engine.Provision.Frame.{recorded, provision_all-recorded}
use infra_shelf.Engine.Targets.{new_progress}
use infra_shelf.Engine.Setup.{SetupOptions, setup_checks, setup_app}
use infra_shelf.Engine.Setup.Outcome.{SetupOutcome, setup_app_lem}
use infra_shelf.Engine.Add.{AddOptions, add_services}
use infra_shelf.Engine.Add.Keeps.{Extended, add_services-keeps}
use infra_shelf.Engine.Remove.{remove_app, detach_services}
use infra_shelf.Engine.Remove.Removed.{RemoveOutcome, remove_app_lem}
use infra_shelf.Engine.Remove.Detached.{DetachOutcome, detach_services_lem}
use infra_shelf.Engine.Backup.{file_name}
use infra_shelf.Engine.Restore.{detect_service, find_latest_backup}
use infra_shelf.Engine.Restore.Names.{IsFound, find_latest_backup_lem, detect_service-file_name}
use infra_shelf.Registry.Store.{upsert_app, delete_app}
use infra_shelf.Registry.Store.Apps.{Changed, upsert_app_lem, delete_app_lem}
use infra_shelf.Envspec.{Target, build_add_targets}
use infra_shelf.Json.{Json, Fields, text, array, object, nil, cons, end, field}
use infra_shelf.Services.Rabbitmq.{filter_by_key}
use infra_shelf.Services.Rabbitmq.Filter.{IsItem, IsItemOf, holds, filter_by_key_iff}
use infra_shelf.Engine.Backup.{sort_strings}
use infra_shelf.Engine.Backup.Sorted.{IsAscending, count, sort_strings_lem}
use infra_shelf.Engine.Setup.{new_entry}
use infra_shelf.Engine.Setup.Again.{build_add_targets-new_entry}
use infra_shelf.Backups
use infra_shelf.Backups.{File, filter_files}
use infra_shelf.Backups.Filter.{keeps, Wanted, filter_files_lem}
use infra_shelf.Backups.Names.{detect_service-file_name_backup}
use infra_shelf.Common.{◌&&◌}
use infra_shelf.Engine.Backup.{choose_backup_services, provisioned_here}
use infra_shelf.Engine.Backup.Chosen.{has, is_requested, choose_backup_services_lem}
use infra_shelf.Examples.Fixtures.{
  Doc, plain_codec, shop_postgres, shop_entry, one_app, one_app-IsSorted, apps_file, home, not_env,
  disk, disk_loads, storage, host, machine, world, loaded-IsSorted,
}

abbrev two_apps : Registry
two_apps = record {
  version = 0;
  apps = (codes "blog", shop_entry) ∷ (codes "shop", shop_entry) ∷ [];
}

two_apps-IsSorted : IsSorted two_apps.apps
two_apps-IsSorted = unfold str_lt in (refl, (tt, tt))

two_apps-IsNamed : IsNamed ascii two_apps.apps
unfolding str_eq
two_apps-IsNamed = ascii_keys two_apps.apps refl

save_lem_example :
    Saves plain_codec apps_file home not_env
      (coerced ascii (stored two_apps))
      disk
      (save plain_codec (apps_file ∷ home) two_apps disk).0
      (save plain_codec (apps_file ∷ home) two_apps disk).1
save_lem_example =
    save_lem plain_codec apps_file home not_env two_apps disk two_apps-IsSorted two_apps-IsNamed

disk_secret : registry_secret plain_codec disk home ≡ ok (codes "key")
unfolding lookup str_eq trim_space trim_left trim_right
disk_secret = registry_secret_env plain_codec disk home (codes "key") refl refl refl

encrypt_in_place_lem_example :
    Saves plain_codec apps_file home not_env one_app disk
      (encrypt_in_place plain_codec (apps_file ∷ home) disk).0
      (encrypt_in_place plain_codec (apps_file ∷ home) disk).1
encrypt_in_place_lem_example =
    encrypt_in_place_lem plain_codec apps_file home not_env (codes "key") one_app disk disk_secret
      disk_loads one_app-IsSorted

abbrev setup_options : SetupOptions
setup_options = record {
  services = codes "redis" ∷ codes "postgres" ∷ [];
  envs = codes "staging" ∷ codes "prod" ∷ [];
  env = [];
  full_access = false;
}

two_envs_valid : All IsEnvName setup_options.envs
unfolding app_name_pattern
two_envs_valid = (refl, (refl, tt))

two_envs-IsDistinct : IsDistinct setup_options.envs
two_envs-IsDistinct = unfold elem str_eq in (refl, (refl, tt))

setup_app_lem_example :
    SetupOutcome storage host
      (codes "blog")
      setup_options
      world
      (setup_checks host (codes "blog") setup_options world)
      (setup_app host (codes "blog") setup_options world)
setup_app_lem_example =
    setup_app_lem storage host (codes "blog") setup_options world two_envs_valid two_envs-IsDistinct
      loaded-IsSorted

abbrev add_options : AddOptions
add_options = record { services = codes "redis" ∷ codes "postgres" ∷ []; envs = []; env = [] }

add_services-keeps_example :
    Extended storage one_app (add_services host (codes "shop") add_options world).1.storage
add_services-keeps_example =
    add_services-keeps storage host (codes "shop") add_options world one_app disk_loads
      one_app-IsSorted

remove_app_lem_example :
    RemoveOutcome storage (codes "shop") world (remove_app host (codes "shop") world)
remove_app_lem_example = remove_app_lem storage host (codes "shop") world loaded-IsSorted

detach_services_lem_example :
    DetachOutcome storage
      (codes "shop")
      (codes "signoz" ∷ [])
      world
      (detach_services host (codes "shop") (codes "signoz" ∷ []) world)
detach_services_lem_example =
    detach_services_lem storage host (codes "shop") (codes "signoz" ∷ []) world loaded-IsSorted

abbrev some_values : List Bytes
some_values = codes " redis" ∷ codes "postgres" ∷ codes "redis" ∷ codes "" ∷ []

parse_services_lem_example : Outcome some_values [] (parse_services some_values)
parse_services_lem_example = parse_services_lem some_values

parse_envs_iff_example : (parse_envs (codes "prod, dev") ≡ ok (codes "prod" ∷ codes "dev" ∷ [])) ↔ (
    (codes "prod" ∷ codes "dev" ∷ [] ≡ trimmed_parts (split (codes "prod, dev") b','))
    × IsEnvList (trimmed_parts (split (codes "prod, dev") b',')))
parse_envs_iff_example = parse_envs_iff (codes "prod, dev") (codes "prod" ∷ codes "dev" ∷ []) (cc)

abbrev two_envs : List Bytes
two_envs = codes "staging" ∷ codes "prod" ∷ []

parse_envs-join_example : parse_envs (join two_envs (b',' ∷ [])) ≡ ok two_envs
parse_envs-join_example =
    parse_envs-join two_envs
      (record { some_env = cc; valid = two_envs_valid; distinct = two_envs-IsDistinct })

abbrev setup_opts : Options
setup_opts = record { envs = two_envs; env = [] }

shop_valid : app_name_pattern (codes "shop") ≡ true
unfolding app_name_pattern
shop_valid = refl

build_setup_targets_valid_example :
    All (λ n. app_name_pattern n ≡ true) (setup_names (codes "shop") setup_opts)
    × IsDistinct (setup_names (codes "shop") setup_opts)
build_setup_targets_valid_example =
    build_setup_targets_valid (codes "shop") setup_opts shop_valid two_envs_valid
      two_envs-IsDistinct

abbrev no_options : ProvisionOptions
no_options = record { full_access = false; signoz_service_name = []; signoz_environment = [] }

provision_all-recorded_example :
    recorded
      (codes "redis")
      (provision_all host
        (codes "shop")
        no_options
        (codes "redis" ∷ codes "nginx" ∷ [])
        (new_progress empty_services)
        world).0
    ≡ (elem (codes "redis") (codes "redis" ∷ codes "nginx" ∷ [])
        || recorded (codes "redis") (new_progress empty_services))
provision_all-recorded_example =
    provision_all-recorded host (codes "shop") no_options (codes "redis")
      (codes "redis" ∷ codes "nginx" ∷ []) (new_progress empty_services) world

abbrev two_lines : List Line
two_lines = entry (codes "A") (codes "x") ∷ entry (codes "B") (codes "y=z") ∷ []

IsPlain-word :
    (v : Bytes)
    → IsWord v
    → has_prefix v (b'"' ∷ []) ≡ false
    → has_prefix v (b'\'' ∷ []) ≡ false
    → IsPlain v
IsPlain-word v w d s = record { word = w; no_double = d; no_single = s }

two_lines_valid : All IsLine two_lines
unfolding has_prefix
two_lines_valid = (
  (
    record { word = (refl, tt); no_equals = (refl, tt); no_comment = refl },
    IsPlain-word (codes "x") (refl, tt) refl refl,
  ),
  (
    (
      record { word = (refl, tt); no_equals = (refl, tt); no_comment = refl },
      IsPlain-word (codes "y=z") (refl, (refl, (refl, tt))) refl refl,
    ),
    tt,
  ),
)

parse_dotenv-join_example :
    parse_dotenv (join (print_lines two_lines) (b'\n' ∷ [])) ≡ entries two_lines []
parse_dotenv-join_example = parse_dotenv-join two_lines (cc) two_lines_valid

shop-IsReadable : IsReadable shop_postgres
unfolding has_prefix
shop-IsReadable =
    let four : IsWord (codes "shop") = (refl, (refl, (refl, (refl, tt)))) in
    record {
      username = IsPlain-word (codes "shop") four refl refl;
      password =
          IsPlain-word (codes "s3cret") (refl, (refl, (refl, (refl, (refl, (refl, tt)))))) refl
            refl;
      database = IsPlain-word (codes "shop") four refl refl;
    }

parse_dotenv-postgres_env_example :
    (lookup (codes "DB_USERNAME") (parse_dotenv (postgres_env shop_postgres)) ≡ some (codes "shop"))
    × (lookup (codes "DB_PASSWORD") (parse_dotenv (postgres_env shop_postgres))
        ≡ some (codes "s3cret"))
    × (lookup (codes "DB_NAME") (parse_dotenv (postgres_env shop_postgres)) ≡ some (codes "shop"))
parse_dotenv-postgres_env_example = parse_dotenv-postgres_env shop_postgres shop-IsReadable

generate_lem_example :
    (p : Bytes) × ((generate host 24 machine).0 ≡ ok p) × (length p ≡ 24) × All IsUrlChar p
generate_lem_example = generate_lem host 23 machine

abbrev backups : Machine
backups = record {
  calls = [];
  drawn = 0;
  files =
      (codes "redis_2024-01-01.json" ∷ codes "shop" ∷ [], [])
      ∷ (codes "redis_2024-01-02.json" ∷ codes "shop" ∷ [], [])
      ∷ [];
}

find_latest_backup_lem_example :
    IsFound redis
      (read_dir host (codes "shop" ∷ []) backups)
      (find_latest_backup host (codes "shop" ∷ []) redis backups)
find_latest_backup_lem_example = find_latest_backup_lem host (codes "shop" ∷ []) redis backups

detect_service-file_name_example :
    detect_service (file_name redis (codes "2024-01-01T00-00-00")) ≡ some redis
detect_service-file_name_example = detect_service-file_name redis (codes "2024-01-01T00-00-00") refl

upsert_app_lem_example :
    Changed plain_codec apps_file home not_env
      (codes "blog")
      (some (coerced_entry ascii shop_entry))
      disk
      (upsert_app plain_codec (apps_file ∷ home) (codes "blog") shop_entry disk)
upsert_app_lem_example =
    upsert_app_lem plain_codec apps_file home not_env (codes "blog") shop_entry disk refl
      loaded-IsSorted

delete_app_lem_example :
    Changed plain_codec apps_file home not_env
      (codes "shop")
      none
      disk
      (delete_app plain_codec (apps_file ∷ home) (codes "shop") disk)
delete_app_lem_example =
    delete_app_lem plain_codec apps_file home not_env (codes "shop") disk loaded-IsSorted

abbrev app_names : List Bytes
app_names = codes "shop" ∷ codes "blog" ∷ codes "wiki" ∷ []

sort_strings_lem_example :
    IsAscending (sort_strings app_names)
    × ((z : Bytes) → count z (sort_strings app_names) ≡ count z app_names)
sort_strings_lem_example = sort_strings_lem app_names

abbrev staging : Target
staging = record {
  name = codes "shop-staging";
  signoz_service_name = codes "shop";
  signoz_env = codes "staging";
}

abbrev staging_apps : Registry
staging_apps = record {
  version = 1;
  apps = (codes "shop-staging", new_entry (codes "now") staging empty_services) ∷ [];
}

staging_found :
    lookup staging.name staging_apps.apps ≡ some (new_entry (codes "now") staging empty_services)
unfolding lookup str_eq
staging_found = refl

build_add_targets-new_entry_example :
    build_add_targets (codes "shop-staging") (record { envs = []; env = [] }) staging_apps
    ≡ staging ∷ []
build_add_targets-new_entry_example =
    build_add_targets-new_entry staging (codes "now") empty_services staging_apps refl staging_found

abbrev shop_vhost : Json
shop_vhost = object (field (codes "name") (text (codes "shop")) end)

abbrev vhosts : Json
vhosts = array (cons shop_vhost (cons (object end) nil))

filter_by_key_iff_example :
    IsItem shop_vhost (filter_by_key vhosts (codes "name") (codes "shop")) ↔ (
      IsItemOf shop_vhost vhosts
      × ((m : Fields) × (shop_vhost ≡ object m) × (holds (codes "name") (codes "shop") m ≡ true)))
filter_by_key_iff_example = filter_by_key_iff vhosts (codes "name") (codes "shop") shop_vhost

detect_service-file_name_backup_example :
    Backups.detect_service (file_name redis (codes "2024-01-01T00-00-00")) ≡ codes "redis"
detect_service-file_name_backup_example =
    detect_service-file_name_backup redis (codes "2024-01-01T00-00-00") refl

abbrev two_files : List File
two_files =
    record {
      app = codes "shop";
      service = codes "redis";
      name = codes "redis_1.json";
      path = codes "/b/shop/redis_1.json";
      size = 2;
      modified = 1;
    }
    ∷ record {
      app = codes "blog";
      service = codes "postgres";
      name = codes "postgres_1.sql";
      path = codes "/b/blog/postgres_1.sql";
      size = 3;
      modified = 2;
    }
    ∷ []

filter_files_lem_example :
    (filter_files two_files (codes "shop") (codes "redis")
      ≡ filter (keeps (codes "shop") (codes "redis")) two_files)
    × ((f : File)
        → (keeps (codes "shop") (codes "redis") f ≡ true) ↔ Wanted (codes "shop") (codes "redis") f)
filter_files_lem_example = filter_files_lem two_files (codes "shop") (codes "redis")

choose_backup_services_lem_example :
    has redis (choose_backup_services shop_entry (codes "redis" ∷ []))
    ≡ (provisioned_here shop_entry redis && is_requested redis (codes "redis" ∷ []))
choose_backup_services_lem_example =
    choose_backup_services_lem shop_entry (codes "redis" ∷ []) redis
