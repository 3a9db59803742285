-- ===== src/Socket/Manager.antt =====
-- internal/websocket/manager.go. A `*Client` is a number, and the manager's state holds the clients
-- that the numbers stand for, so that two names of one client see the same changes. A result `none`
-- is a panic of Go: a channel that is closed twice, or that is sent to when it is closed.
pub mod Queue
pub mod Sound
pub mod Safety
pub mod Delivery
pub mod Stop
use vehicle_telematics.Base.{
  ℕ, zero, suc, ◌+◌, ◌*◌, String, Bool, true, false, List, [], ◌∷◌, ◌++◌, Option, none, some,
  if◌then◌else◌, ltb, leb, ◌==◌, length, lookup, insert, remove, str_eq,
}
use vehicle_telematics.Base.Float.{Float}
use vehicle_telematics.Base.Time.{Time, second, since}
use vehicle_telematics.Socket.Types.{
  VehicleFilters, VehicleUpdate, priority_low, priority_medium, priority_high, priority_critical,
}
use vehicle_telematics.Socket.Filters.{should_send_to_client}

pub record Client (F : Float) : Type 0 where
  pub id : String
  pub filters : VehicleFilters
  -- The buffered channel, oldest first, and whether it and the connection have been closed.
  pub send : List (VehicleUpdate F)
  pub is_closed : Bool
  pub last_ping : Time
  pub is_active : Bool

pub record Manager (F : Float) : Type 0 where
  pub clients : List (String × ℕ)
  pub broadcast : List (VehicleUpdate F)
  -- The clients made so far are those below `allocated`.
  pub objects : ℕ → Client F
  pub allocated : ℕ

pub record ClientStats : Type 0 where
  pub total_clients : ℕ
  pub active_clients : ℕ
  pub inactive_clients : ℕ

abbrev pub broadcast_buffer : ℕ
broadcast_buffer = 1000

abbrev pub send_buffer : ℕ
send_buffer = 256

-- `priorityOrder`, whose answer is 0 on a text that it lacks.
unfoldable pub priority_order : String → ℕ
priority_order priority =
    if str_eq priority priority_critical
    then 0
    else if str_eq priority priority_high
    then 1
    else if str_eq priority priority_medium
    then 2
    else if str_eq priority priority_low
    then 3
    else 0

module _ {F : Float} where
  -- What stands at a number that no client has yet.
  abbrev pub nobody : Client F
  nobody = record {
    id = "";
    filters = record { vehicle_ids = []; statuses = []; drivers = []; alert_types = [] };
    send = [];
    is_closed = true;
    last_ping = 0;
    is_active = false;
  }

  unfoldable pub new_manager : Manager F
  new_manager = record { clients = []; broadcast = []; objects = λ _. nobody; allocated = 0 }

  abbrev pub write : ℕ → Client F → Manager F → Manager F
  write p c m = record m { objects = λ q. if q == p then c else m.objects q }

  -- `RegisterClient`, and the `register` case of the loop.
  unfoldable pub register_client : String → VehicleFilters → Time → Manager F → Manager F
  register_client client_id filters now m =
      let client : Client F = record {
        id = client_id;
        filters = filters;
        send = [];
        is_closed = false;
        last_ping = now;
        is_active = true;
      } in
      record (write m.allocated client m) {
        clients = insert client_id m.allocated m.clients;
        allocated = m.allocated + 1;
      }

  -- `close(client.Send)`, then `client.Conn.Close()`
  unfoldable pub close_client : ℕ → Manager F → Option (Manager F)
  close_client p m =
      if (m.objects p).is_closed
      then none
      else some (write p (record (m.objects p) { is_closed = true }) m)

  -- The `unregister` case of the loop.
  unfoldable pub unregister : ℕ → Manager F → Option (Manager F)
  unfolding close_client
  unregister p m = elim (lookup (m.objects p).id m.clients) [
    | none ↦ some m
    | some _ ↦ close_client p (record m { clients = remove (m.objects p).id m.clients })
  ]

  -- `UnregisterClient`: the client that it sends to the loop, if any.
  unfoldable pub unregister_client : String → Manager F → Option ℕ
  unregister_client client_id m = lookup client_id m.clients

  -- The `select` that sends an update to the loop or drops it.
  unfoldable pub offer : VehicleUpdate F → List (VehicleUpdate F) → List (VehicleUpdate F) × Bool
  offer update broadcast =
      if ltb (length broadcast) broadcast_buffer
      then (broadcast ++ update ∷ [], true)
      else (broadcast, false)

  -- `BroadcastVehicleUpdate`, with whether the update was accepted.
  unfoldable pub broadcast_vehicle_update : VehicleUpdate F → Manager F → Manager F × Bool
  unfolding offer
  broadcast_vehicle_update update m =
      let (broadcast, accepted) = offer update m.broadcast in
      (record m { broadcast = broadcast }, accepted)

  -- `priority <= 1`
  unfoldable pub goes_first : VehicleUpdate F → Bool
  unfolding priority_order
  goes_first update = leb (priority_order update.priority) 1

  -- One of the two loops of `BroadcastBatchUpdates`.
  unfoldable pub offer_each :
      (VehicleUpdate F → Bool)
      → List (VehicleUpdate F)
      → List (VehicleUpdate F)
      → List (VehicleUpdate F)
  unfolding offer
  offer_each now [] broadcast = broadcast
  offer_each now (u ∷ updates) broadcast =
      offer_each now updates (if now u then (offer u broadcast).0 else broadcast)

  unfoldable pub broadcast_batch_updates : List (VehicleUpdate F) → Manager F → Manager F
  unfolding offer_each
  broadcast_batch_updates updates m = record m {
    broadcast =
        offer_each (λ u. if goes_first u then false else true) updates
          (offer_each goes_first updates m.broadcast);
  }

  unfoldable pub get_connected_clients : Manager F → ℕ
  get_connected_clients m = length m.clients

  -- The clients of the map that are active, as `GetClientStats` counts them.
  unfoldable pub count_active : Manager F → List (String × ℕ) → ℕ
  count_active m [] = 0
  count_active m ((k, p) ∷ clients) =
      let rest = count_active m clients in if (m.objects p).is_active then suc rest else rest

  unfoldable pub count_inactive : Manager F → List (String × ℕ) → ℕ
  count_inactive m [] = 0
  count_inactive m ((k, p) ∷ clients) =
      let rest = count_inactive m clients in if (m.objects p).is_active then rest else suc rest

  unfoldable pub get_client_stats : Manager F → ClientStats
  unfolding count_active count_inactive
  get_client_stats m = record {
    total_clients = length m.clients;
    active_clients = count_active m m.clients;
    inactive_clients = count_inactive m m.clients;
  }

  -- The body of the loop of `broadcastToClients`.
  unfoldable pub send_to_client : VehicleUpdate F → ℕ → Manager F → Option (Manager F)
  send_to_client update p m =
      let client = m.objects p in
      if should_send_to_client client.filters update
      then (if client.is_closed
          then none
          else if ltb (length client.send) send_buffer
          then some (write p (record client { send = client.send ++ update ∷ [] }) m)
          else some (write p (record client { is_active = false }) m))
      else some m

  unfoldable pub send_to_each : VehicleUpdate F → List (String × ℕ) → Manager F → Option (Manager F)
  unfolding send_to_client
  send_to_each update [] m = some m
  send_to_each update ((k, p) ∷ clients) m = elim (send_to_client update p m) [
    | none ↦ none
    | some m' ↦ send_to_each update clients m'
  ]

  unfoldable pub broadcast_to_clients : VehicleUpdate F → Manager F → Option (Manager F)
  unfolding send_to_each
  broadcast_to_clients update m = send_to_each update m.clients m

  -- The loop takes the next update, if there is one.
  unfoldable pub take_broadcast : Manager F → Option (Manager F)
  unfolding broadcast_to_clients
  take_broadcast m = elim m.broadcast [
    | [] ↦ some m
    | update ∷ rest ↦ broadcast_to_clients update (record m { broadcast = rest })
  ]

  -- The loop of `healthCheck`, over the entries of the map.
  unfoldable pub check_each : Time → List (String × ℕ) → Manager F → Option (Manager F)
  unfolding close_client
  check_each now [] m = some m
  check_each now ((k, p) ∷ clients) m =
      let rest : Manager F → Option (Manager F) = check_each now clients in
      if ltb (90 * second) (since now (m.objects p).last_ping)
      then elim (close_client p (record m { clients = remove k m.clients })) [
        | none ↦ none
        | some m' ↦ rest m'
      ]
      else rest m

  unfoldable pub health_check : Time → Manager F → Option (Manager F)
  unfolding check_each
  health_check now m = check_each now m.clients m

  -- The pong handler, and the `update_filters` message, of `handleClient`.
  unfoldable pub pong : ℕ → Time → Manager F → Manager F
  pong p now m = write p (record (m.objects p) { last_ping = now }) m

  unfoldable pub update_filters : ℕ → VehicleFilters → Manager F → Manager F
  update_filters p filters m = write p (record (m.objects p) { filters = filters }) m

  -- `writeMessages` takes the next update of a client.
  unfoldable pub write_message : ℕ → Manager F → Manager F
  write_message p m = elim (m.objects p).send [
    | [] ↦ m
    | _ ∷ rest ↦ write p (record (m.objects p) { send = rest }) m
  ]

  -- The loop of `Stop`, which leaves the map as it is.
  unfoldable pub close_each : List (String × ℕ) → Manager F → Option (Manager F)
  unfolding close_client
  close_each [] m = some m
  close_each ((k, p) ∷ clients) m = elim (close_client p m) [
    | none ↦ none
    | some m' ↦ close_each clients m'
  ]

  unfoldable pub stop : Manager F → Option (Manager F)
  unfolding close_each
  stop m = close_each m.clients m

-- What the loop and the goroutines of the clients do, in any order.
pub data Event (F : Float) : Type 0 where
  registers : String → VehicleFilters → Time → Event F
  -- A client leaves: its connection failed, or `UnregisterClient` found it, now or earlier.
  leaves : ℕ → Event F
  broadcasts : List (VehicleUpdate F) → Event F
  delivers : Event F
  checks : Time → Event F
  pongs : ℕ → Time → Event F
  filters_changed : ℕ → VehicleFilters → Event F
  writes : ℕ → Event F

module _ {F : Float} where
  unfoldable pub step : Event F → Manager F → Option (Manager F)
  step (registers client_id filters now) m = some (register_client client_id filters now m)
  step (leaves p) m = unregister p m
  step (broadcasts updates) m = some (broadcast_batch_updates updates m)
  step delivers m = take_broadcast m
  step (checks now) m = health_check now m
  step (pongs p now) m = some (pong p now m)
  step (filters_changed p filters) m = some (update_filters p filters m)
  step (writes p) m = some (write_message p m)

  unfoldable pub run : List (Event F) → Manager F → Option (Manager F)
  unfolding step
  run [] m = some m
  run (e ∷ es) m = elim (step e m) [ none ↦ none | some m' ↦ run es m' ]
