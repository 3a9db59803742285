-- ===== src/Tests/Vehicles.antt =====
-- Tests of the vehicle service, over a fleet, a list of alerts and a cache on Redis in memory.
use vehicle_telematics.Base.{◌≡◌, refl, ap, true, List, [], ◌∷◌, ◌++◌, none, some, ◌≤◌, arith}
use vehicle_telematics.Base.Int.{pos, ◌+ℤ◌, ◌-ℤ◌}
use vehicle_telematics.Base.Results.{ok}
use vehicle_telematics.Models.{Vehicle, Alert}
use vehicle_telematics.Cache.{default_cache_config, get_ttl_for_data_type}
use vehicle_telematics.Cache.Redis.{
  RedisCacheManager, new_redis_cache_manager, build_key, build_tag_key, record_hit, record_miss,
  read_text, read_reply, fetch, tag_commands, tag_key, put, remove_key_tags, delete,
}
use vehicle_telematics.Cache.Redis.Manager.{
  vehicle_tags, list_tags, get_vehicle, set_vehicle, invalidate_vehicle, get_vehicle_list,
  set_vehicle_list, redis_cache,
}
use vehicle_telematics.Vehicles.Requests.{UpdateVehicleRequest, apply_request}
use vehicle_telematics.Vehicles.Alerts.{
  AlertStore, raise_alert, check_fuel_theft, has_low_fuel_alert, check_low_fuel, check_speeding,
  run_checks,
}
use vehicle_telematics.Vehicles.Alerts.Raised.{file_all, troubles, is_low, run_checks_lem}
use vehicle_telematics.Vehicles.Alerts.Open.{open_alerts, run_checks-open}
use vehicle_telematics.Vehicles.Caching.{
  status_list, driver_list, dropped_key, from_database, read_through, get_list, get_one,
  invalidate_cache_on_update, invalidate_cache_on_delete,
}
use vehicle_telematics.Vehicles.Service.Defs.{
  VehicleService, World, get_all_vehicles, get_vehicles_by_status, get_vehicles_by_driver,
  get_vehicle_by_id, plate_taken, raise_alerts, finish_update, update_found, update_vehicle,
  finish_delete, delete_vehicle,
}
use vehicle_telematics.Vehicles.Service.Handle.{
  Request, Answer, vehicles, vehicle, updated, handle, handle_all,
}
use vehicle_telematics.Vehicles.Service.OnRedis.{handle_all-on_redis}
use vehicle_telematics.Tests.Numbers.{fixed}
use vehicle_telematics.Tests.Redis.{
  Memory, Text, memory, memory-KeepsText, json, json_list, json-ReadsBack, json_list-ReadsBack, van,
  empty, empty-held, run,
}
use vehicle_telematics.Tests.Fleet.{
  Fleet, find, replace, take_away, fleet_repo, same_id, fleet_repo-KeepsVehicles,
}

-- The alerts that were created, with ids that are all the same.
abbrev alerts_list : AlertStore (List Alert)
alerts_list = record {
  new_object_id = λ a. (a, "5e1f");
  create = λ alert a. (a ++ alert ∷ [], true);
}

program : Unit {0}
unfolding default_cache_config get_ttl_for_data_type new_redis_cache_manager build_key build_tag_key
    record_hit record_miss read_text read_reply fetch tag_commands tag_key put remove_key_tags
    delete vehicle_tags list_tags get_vehicle set_vehicle invalidate_vehicle get_vehicle_list
    set_vehicle_list redis_cache apply_request raise_alert check_fuel_theft has_low_fuel_alert
    check_low_fuel check_speeding run_checks from_database read_through get_list get_one
    invalidate_cache_on_update invalidate_cache_on_delete get_all_vehicles get_vehicles_by_status
    get_vehicles_by_driver get_vehicle_by_id plate_taken raise_alerts finish_update update_found
    update_vehicle finish_delete delete_vehicle handle handle_all run find replace take_away ◌+ℤ◌
    ◌-ℤ◌
program = tt

-- The van has lost 30, has 10 of 60 left, and drives at 90.
abbrev drained : Vehicle fixed
drained = record van { fuel_level = pos 10_000_000; speed = pos 90 }

three_alerts : open_alerts (run_checks alerts_list (pos 40_000_000) 7 drained []).1.alerts ≡ 1
unfolding program
three_alerts = refl

run_checks_lem_example : run_checks alerts_list (pos 40_000_000) 7 drained [] ≡ (
    let (a', alerts) = file_all alerts_list "64f0" 7 (troubles (pos 40_000_000) drained) [] in
    (a', record drained { alerts = [] ++ alerts }))
run_checks_lem_example = run_checks_lem alerts_list 7 (pos 40_000_000) drained []

run_checks-open_example :
    let after = open_alerts (run_checks alerts_list (pos 40_000_000) 7 drained []).1.alerts in
    (after ≤ 1) × (is_low drained ≡ true → after ≡ 1)
run_checks-open_example = run_checks-open alerts_list 7 (pos 40_000_000) drained [] (omega arith)

abbrev service : VehicleService fixed Fleet (List Alert) (RedisCacheManager (Memory Text))
service = record {
  vehicle_repo = fleet_repo;
  new_object_id = λ a. (a, "64f1");
  alert_repo = some alerts_list;
  cache_manager = none;
  cache_config = default_cache_config;
}

abbrev park : UpdateVehicleRequest fixed
park = record {
  name = "";
  plate_number = "";
  driver = "";
  fuel_level = pos 0;
  location = none;
  speed = pos 0;
  status = "idle";
  odometer = pos 0;
  make = "";
  model = "";
  year = pos 0;
  vin = "";
  max_fuel_capacity = pos 0;
  fuel_consumption = pos 0;
}

abbrev requests : List (Request fixed)
requests =
    Request.by_status "active"
    ∷ Request.update "64f0" park 9
    ∷ Request.by_status "active"
    ∷ Request.by_id "64f0"
    ∷ []

abbrev world : World Fleet (List Alert) (RedisCacheManager (Memory Text))
world = record { vehicles = van ∷ []; alerts = []; cache = empty }

abbrev cached_answers : List (Answer fixed)
cached_answers =
    (handle_all
      (record service {
        cache_manager = some (redis_cache default_cache_config memory json json_list);
      })
      requests world).1

abbrev parked : Vehicle fixed
parked = record van { speed = pos 0; status = "idle"; last_update = 9; updated_at = 9 }

-- After the update no vehicle is active, although the cache held the one that was.
parked_answers :
    cached_answers
    ≡ vehicles (some (van ∷ []))
      ∷ updated (ok parked)
      ∷ vehicles (some [])
      ∷ vehicle (some parked)
      ∷ []
unfolding program
parked_answers = refl

handle_all-on_redis_example : (handle_all service requests world).1 ≡ cached_answers
unfolding default_cache_config
handle_all-on_redis_example =
    let cache = world.cache in
    ap
      (λ (x : World Fleet (List Alert) (RedisCacheManager (Memory Text)) × List (Answer fixed)).
        x.1)
      (handle_all-on_redis service default_cache_config memory memory-KeepsText json json_list
        same_id fleet_repo-KeepsVehicles json-ReadsBack json_list-ReadsBack (λ key m. refl) refl
        cache requests world (tt, (tt, (tt, (refl, tt))))
        (record {
          one = λ id v e h. absurd (
              let none_there = empty-held json (build_key default_cache_config "vehicle" id) in cc);
          all = λ vs h.
              absurd (let none_there = empty-held json_list (dropped_key "all_vehicles") in cc);
          by_status = λ status vs h.
              absurd
                (let none_there = empty-held json_list (dropped_key (status_list status)) in cc);
          by_driver = λ driver vs h.
              absurd
                (let none_there = empty-held json_list (dropped_key (driver_list driver)) in cc);
        })).0
