-- ===== src/Examples/Running.antt =====
-- The theorems on schedules, backups, the configuration and the pages at concrete inputs.
use infra_shelf.Common.{
  ℕ, Bytes, true, false, ◌&&◌, not, List, [], ◌∷◌, map, filter, Option, none, some, ok, ◌≡◌, refl,
  no_env_names, ◌⊎◌, ◌↔◌, arith,
}
use infra_shelf.Common.Text.{
  codes, split, trim_space, trim_left, trim_right, str_eq, elem, has_prefix, has_suffix,
}
use infra_shelf.Common.Dict.{lookup, insert, keys}
use infra_shelf.Common.Paths.{clean, clean_names}
use infra_shelf.Registry.{App, attached, service_catalog, addons, valid_services, empty_services}
use infra_shelf.Registry.Names.{parse_services, parse_services_loop}
use infra_shelf.Registry.Listing.{build_service_infos}
use infra_shelf.Registry.Listing.Infos.{info_of, build_service_infos_lem}
use infra_shelf.Backups.{File, detect_service}
use infra_shelf.Backups.Tree.{
  list, list_root, list_folders, list_folder, list_entries, file_of, remove as remove_file,
  remove_on, drop_in, drop_entry, delete,
}
use infra_shelf.Backups.Prune.Settled.{IsSettled, prune-IsSettled}
use infra_shelf.Registry.Names.{app_name_pattern}
use infra_shelf.Backups.Tree.Resolved.{After, IsDeleted, delete_file_lem}
use infra_shelf.Backups.Prune.{prune, prune_groups, prune_group, group_files}
use infra_shelf.Backups.Prune.Kept.{cutoff_of}
use infra_shelf.Config.{resolve_root}
use infra_shelf.Config.Root.{IsNearest, resolve_root-IsNearest}
use infra_shelf.S3backup.{enabled}
use infra_shelf.BackupService.{World, decimal, backup_with_retention}
use infra_shelf.BackupService.Ordered.{IsRun, run_of, prunes, backup_with_retention-IsRun}
use infra_shelf.Scheduler.Rows.{join_services, split_services}
use infra_shelf.Scheduler.Table.{find_row}
use infra_shelf.Scheduler.Store.{get_schedule, list_schedules}
use infra_shelf.Scheduler.Store.Invariant.{
  IsConsistent, Command, create, enable, remove, start, perform_all, perform_all-IsConsistent,
}
use infra_shelf.Scheduler.Store.Services.{split_services-join_services}
use infra_shelf.Scheduler.Store.Refines.{Schedules, found, specified_all, perform_all-get_schedule}
use infra_shelf.Scheduler.Store.Listed.{IsListing, list_schedules-IsListing}
use infra_shelf.Scheduler.Manager.{run}
use infra_shelf.Scheduler.Manager.Recorded.{Recorded, run_lem}
use infra_shelf.Scheduler.Jobs.{reload, validate}
use infra_shelf.Scheduler.Jobs.Reloaded.{JobsAfter, IsTracked, reload_lem}
use infra_shelf.Server.{accepted, check_app, check_cron, check_form}
use infra_shelf.Server.Pages.{IsServed, changed_db, serve, pause_page, serve-IsServed}
use infra_shelf.Server.Checks.{IsAcceptable, check_form-IsAcceptable}
use infra_shelf.Server.Forms.{basic, served, parse_non_negative_int, signed}
use infra_shelf.Server.Forms.Access.{basic_iff}
use infra_shelf.Server.Forms.Numbers.{parse_non_negative_int-decimal}
use infra_shelf.Examples.Samples.{
  byte_clock, list_cron, counting_runner, say, nightly_db, nightly_db-IsConsistent, empty_db,
  empty_db-IsConsistent, nightly, nightly_input, times, nightly_manager, nightly_form, any_app,
  insertion_sorter, shop_tree, keep_one, shop_client, shop_setting, shop_engine, no_requests,
  marked_host,
}

-- A schedule is created, paused, run and removed.
abbrev commands : List Command
commands =
    create nightly_input 3 ∷ enable 1 false 4 ∷ start (some 1) (codes "*") [] 5 ∷ remove 1 ∷ []

perform_all-IsConsistent_example : IsConsistent (perform_all byte_clock commands empty_db)
perform_all-IsConsistent_example =
    perform_all-IsConsistent byte_clock commands empty_db empty_db-IsConsistent

abbrev two_services : List Bytes
two_services = codes "redis" ∷ codes "postgres" ∷ []

split_services-join_services_example : split_services (join_services two_services) ≡ two_services
unfolding valid_services
split_services-join_services_example = split_services-join_services two_services (refl, (refl, tt))

abbrev no_schedules : Schedules
no_schedules = record { last = 0; at = λ id. none }

abbrev two_commands : List Command
two_commands = create nightly_input 3 ∷ enable 1 false 4 ∷ []

perform_all-get_schedule_example :
    (get_schedule byte_clock 1 (perform_all byte_clock two_commands empty_db)).0
    ≡ found ((specified_all two_commands no_schedules).at 1)
unfolding valid_services find_row
perform_all-get_schedule_example =
    perform_all-get_schedule byte_clock two_commands empty_db no_schedules 1 empty_db-IsConsistent
      ((refl, tt), (tt, tt)) (record { calm = refl; last = refl; at = λ id. refl })

list_schedules-IsListing_example : IsListing nightly_db (list_schedules byte_clock nightly_db).0
list_schedules-IsListing_example =
    list_schedules-IsListing byte_clock nightly_db nightly_db-IsConsistent

run_lem_example :
    Recorded byte_clock counting_runner say nightly times
      (codes "done")
      (some no_env_names)
      nightly_db
      (run byte_clock counting_runner say nightly times (nightly_db, 0)).0
    × ((run byte_clock counting_runner say nightly times (nightly_db, 0)).1 ≡ 1)
unfolding find_row
run_lem_example =
    run_lem byte_clock counting_runner say nightly times nightly_db 0 refl nightly_db-IsConsistent
      refl

reload_lem_example :
    JobsAfter byte_clock list_cron
      (codes "UTC")
      (list_schedules byte_clock nightly_db).0
      (reload byte_clock list_cron (codes "UTC") 9 nightly_manager).1
    × IsTracked byte_clock list_cron
        (codes "UTC")
        (reload byte_clock list_cron (codes "UTC") 9 nightly_manager).1
reload_lem_example =
    reload_lem byte_clock list_cron (codes "UTC") 9 nightly_manager nightly_db-IsConsistent tt

delete_file_lem_example :
    IsDeleted
      (codes "/srv")
      (codes "shop")
      (codes "redis_1.json")
      shop_tree
      (delete (codes "/srv") (codes "shop") (codes "redis_1.json") shop_tree).0
    × After
        (codes "shop")
        (codes "redis_1.json")
        shop_tree
        (delete (codes "/srv") (codes "shop") (codes "redis_1.json") shop_tree)
delete_file_lem_example =
    delete_file_lem (codes "/srv") (codes "shop") (codes "redis_1.json") shop_tree

abbrev shop_files : List File
shop_files =
    record {
      app = codes "shop";
      service = codes "redis";
      name = codes "redis_2.json";
      path = codes "/srv/shop/redis_2.json";
      size = 12;
      modified = 9;
    }
    ∷ record {
      app = codes "shop";
      service = codes "redis";
      name = codes "redis_1.json";
      path = codes "/srv/shop/redis_1.json";
      size = 10;
      modified = 5;
    }
    ∷ []

shop_listed : list insertion_sorter (codes "/srv") shop_tree ≡ ok shop_files
unfolding list list_root list_folders list_folder list_entries file_of detect_service
    app_name_pattern has_prefix has_suffix
shop_listed = refl

shop_pruned :
    (prune insertion_sorter (λ ks. ks) (λ days. 0) (codes "/srv") keep_one shop_tree).1.0 ≡ none
unfolding prune prune_groups prune_group group_files list list_root list_folders list_folder
    list_entries file_of detect_service app_name_pattern has_prefix has_suffix remove_file remove_on
    drop_in drop_entry lookup insert keys str_eq elem
shop_pruned = refl

prune-IsSettled_example :
    IsSettled keep_one
      (cutoff_of insertion_sorter (λ ks. ks) (λ days. 0) keep_one)
      shop_files
      (prune insertion_sorter (λ ks. ks) (λ days. 0) (codes "/srv") keep_one shop_tree).1.1
prune-IsSettled_example =
    prune-IsSettled insertion_sorter (λ ks. ks) (λ days. 0) (codes "/srv") keep_one shop_tree
      shop_files (λ k ks. refl) tt shop_listed shop_pruned

resolve_root-IsNearest_example :
    IsNearest marked_host
      (clean_names true [] (split (clean (codes "/srv/shelf/cmd")) b'/'))
      (resolve_root marked_host)
unfolding lookup has_prefix
resolve_root-IsNearest_example =
    resolve_root-IsNearest marked_host (codes "/srv/shelf/cmd") refl refl refl

abbrev shop_world : World ℕ
shop_world = record { state = 0; tree = shop_tree; remote = no_requests }

backup_with_retention-IsRun_example :
    IsRun shop_client
      (prunes shop_setting shop_client keep_one)
      no_requests
      (run_of shop_engine (codes "shop") false [] shop_world).0
      none
      (backup_with_retention shop_setting shop_engine (codes "shop") false [] keep_one shop_world)
unfolding enabled
backup_with_retention-IsRun_example =
    backup_with_retention-IsRun shop_setting shop_client shop_engine (codes "shop") false []
      keep_one shop_world refl refl

abbrev plain_app : App
plain_app = record {
  name = codes "shop";
  created_at = [];
  entry = record {
    created_at = [];
    environment = [];
    signoz_service_name = [];
    services = record empty_services {
      redis_config =
          some (record { username = codes "shop"; password = codes "pw"; prefix = codes "shop:" });
    };
  };
}

build_service_infos_lem_example :
    build_service_infos plain_app (λ s. not (addons s))
    ≡ map
        (info_of plain_app)
        (filter (λ s. attached plain_app.entry.services s && not (addons s)) service_catalog)
build_service_infos_lem_example = build_service_infos_lem plain_app (λ s. not (addons s))

serve-IsServed_example :
    IsServed say byte_clock list_cron
      (codes "UTC")
      any_app
      (codes "UTC")
      (changed_db say byte_clock list_cron
        (codes "UTC")
        any_app
        (codes "UTC")
        (pause_page (ok 1) 9)
        nightly_db)
      (serve say byte_clock list_cron
        (codes "UTC")
        any_app
        (codes "UTC")
        (pause_page (ok 1) 9)
        nightly_manager)
serve-IsServed_example =
    serve-IsServed say byte_clock list_cron (codes "UTC") any_app (codes "UTC")
      (pause_page (ok 1) 9) nightly_manager (nightly_db-IsConsistent, tt)

nightly_accepted :
    check_form say list_cron any_app (codes "UTC") nightly_form ≡ accepted nightly_input
unfolding check_form check_app check_cron validate parse_services parse_services_loop valid_services
    str_eq elem trim_space trim_left trim_right parse_non_negative_int signed
nightly_accepted = refl

check_form-IsAcceptable_example : IsAcceptable say list_cron any_app nightly_input
check_form-IsAcceptable_example =
    check_form-IsAcceptable say list_cron any_app (codes "UTC") nightly_form nightly_input
      nightly_accepted

abbrev sent : Option (Bytes × Bytes)
sent = some (codes "admin", codes "wrong")

abbrev right : Option (Bytes × Bytes)
right = some (codes "admin", codes "pw")

basic_iff_example :
    (basic (codes "admin") (codes "pw") (codes "/apps") sent ≡ served)
    ↔ ((codes "/apps" ≡ codes "/logout") ⊎ (sent ≡ right))
basic_iff_example = basic_iff (codes "admin") (codes "pw") (codes "/apps") sent

parse_non_negative_int-decimal_example : parse_non_negative_int (decimal 365) 30 ≡ 365
parse_non_negative_int-decimal_example = parse_non_negative_int-decimal 365 30 (omega arith)
