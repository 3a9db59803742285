-- ===== src/Tests/Socket.antt =====
-- Tests of the WebSocket manager.
use vehicle_telematics.Base.{
  String, ◌≡◌, refl, false, [], ◌∷◌, none, some, lookup, insert, remove, arith,
}
use vehicle_telematics.Base.Time.{hour}
use vehicle_telematics.Models.{text}
use vehicle_telematics.Socket.Types.{VehicleFilters, VehicleUpdate}
use vehicle_telematics.Socket.Filters.{
  found_in, text_at, allows, should_send_to_client, should_send_to_client_lem,
}
use vehicle_telematics.Socket.Manager.{
  Manager, new_manager, register_client, close_client, unregister, priority_order, goes_first,
  offer, offer_each, broadcast_batch_updates, send_to_client, send_to_each, broadcast_to_clients,
  close_each, stop, Event, registers, step,
}
use vehicle_telematics.Socket.Manager.Queue.{is_urgent, is_minor, broadcast_batch_updates_lem}
use vehicle_telematics.Socket.Manager.Sound.{IsSound}
use vehicle_telematics.Socket.Manager.Safety.{CanOccur, Runs, start, next, manager_safe}
use vehicle_telematics.Socket.Manager.Delivery.{told, broadcast_to_clients_lem}
use vehicle_telematics.Socket.Manager.Stop.{stop-panics}
use vehicle_telematics.Tests.Numbers.{fixed}

program : Unit {0}
unfolding lookup insert remove found_in text_at should_send_to_client allows new_manager
    register_client close_client unregister priority_order goes_first is_urgent is_minor offer
    offer_each broadcast_batch_updates send_to_client send_to_each broadcast_to_clients close_each
    stop step CanOccur told
program = tt

abbrev update : String → String → VehicleUpdate fixed
update vehicle_id priority = record {
  vehicle_id = vehicle_id;
  update_type = "alert";
  fields = ("alertType", text "speeding") ∷ [];
  timestamp = hour;
  priority = priority;
}

-- A client that wants alerts on low fuel only.
abbrev fuel_only : VehicleFilters
fuel_only = record {
  vehicle_ids = [];
  statuses = "offline" ∷ [];
  drivers = "Ann" ∷ [];
  alert_types = "low_fuel" ∷ [];
}

abbrev one_vehicle : VehicleFilters
one_vehicle = record { vehicle_ids = "v1" ∷ []; statuses = []; drivers = []; alert_types = [] }

should_send_to_client_lem_example : should_send_to_client fuel_only (update "v1" "high") ≡ false
unfolding program
should_send_to_client_lem_example = should_send_to_client_lem fuel_only (update "v1" "high")

abbrev empty : Manager fixed
empty = new_manager

broadcast_batch_updates_lem_example :
    (broadcast_batch_updates (update "v1" "low" ∷ update "v2" "critical" ∷ []) empty).broadcast
    ≡ update "v2" "critical" ∷ update "v1" "low" ∷ []
unfolding program
broadcast_batch_updates_lem_example =
    broadcast_batch_updates_lem (update "v1" "low" ∷ update "v2" "critical" ∷ []) empty
      (omega arith)

abbrev arrival : Event fixed
arrival = registers "c1" one_vehicle hour

nobody_yet : CanOccur arrival empty
unfolding program
nobody_yet = λ p h. absurd (omega arith)

manager_safe_example : IsSound (manager_safe empty arrival start nobody_yet).0
manager_safe_example = (manager_safe empty arrival start nobody_yet).2

abbrev one_client : Manager fixed
one_client = register_client "c1" one_vehicle hour empty

connected : Runs one_client
unfolding program
connected = next arrival empty one_client start nobody_yet refl

found : lookup "c1" one_client.clients ≡ some 0
unfolding program
found = refl

stop-panics_example : unregister 0 (stop-panics one_client "c1" 0 connected found).0 ≡ none
stop-panics_example = (stop-panics one_client "c1" 0 connected found).3

broadcast_to_clients_lem_example :
    broadcast_to_clients (update "v1" "high") one_client
    ≡ some (broadcast_to_clients_lem (update "v1" "high") one_client connected).0
broadcast_to_clients_lem_example =
    (broadcast_to_clients_lem (update "v1" "high") one_client connected).1
