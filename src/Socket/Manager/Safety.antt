-- ===== src/Socket/Manager/Safety.antt =====
-- Until `Stop` is called, the manager does not panic, and it neither forgets an open client nor keeps a closed one.
use vehicle_telematics.Base.{ℕ, ◌<◌, ◌≡◌, refl, ◌≢◌, List, [], ◌∷◌, some, entries_found}
use vehicle_telematics.Base.Float.{Float}
use vehicle_telematics.Socket.Types.{VehicleUpdate}
use vehicle_telematics.Socket.Manager.{
  Manager, new_manager, write, broadcast_batch_updates, broadcast_to_clients, take_broadcast,
  health_check, pong, update_filters, write_message, Event, registers, leaves, broadcasts, delivers,
  checks, pongs, filters_changed, writes, step,
}
use vehicle_telematics.Socket.Manager.Sound.{
  IsSound, Gives, new-IsSound, write-IsSound, register-IsSound, unregister-Gives,
  send_to_each-Gives, broadcast-IsSound, check_each-Gives,
}

module _ {F : Float} where
  -- What an event may be: a client that registers has an identifier that no client has had (the
  -- handler draws a UUID), and what happens to a client happens to one that has been made.
  unfoldable pub CanOccur : Event F → Manager F → Type 0
  CanOccur (registers client_id _ _) m = (p : ℕ) → p < m.allocated → (m.objects p).id ≢ client_id
  CanOccur (leaves p) m = p < m.allocated
  CanOccur _ m = Unit

  write_message-IsSound : (p : ℕ) (m : Manager F) → IsSound m → IsSound (write_message p m)
  unfolding write_message
  write_message-IsSound p m v = go (m.objects p).send
    where
      go :
          (us : List (VehicleUpdate F))
          → IsSound
              (elim us [ [] ↦ m | _ ∷ rest ↦ write p (record (m.objects p) { send = rest }) m ])
      go [] = v
      go (u ∷ us) = write-IsSound p (record (m.objects p) { send = us }) m refl refl v

  take_broadcast-Gives : (m : Manager F) → IsSound m → Gives (take_broadcast m) IsSound
  unfolding take_broadcast broadcast_to_clients
  take_broadcast-Gives m v = go m.broadcast
    where
      go :
          (us : List (VehicleUpdate F))
          → Gives
              (elim us [
                | [] ↦ some m
                | u ∷ rest ↦ broadcast_to_clients u (record m { broadcast = rest })
              ])
              IsSound
      go [] = (m, refl, v)
      go (u ∷ us) =
          send_to_each-Gives u m.clients (record m { broadcast = us })
            (entries_found m.clients v.distinct) (broadcast-IsSound us m v)

  step-Gives : (e : Event F) (m : Manager F) → CanOccur e m → IsSound m → Gives (step e m) IsSound
  unfolding step CanOccur broadcast_batch_updates health_check pong update_filters
  step-Gives (registers client_id filters now) m h v =
      (_, refl, register-IsSound client_id filters now m h v)
  step-Gives (leaves p) m h v = unregister-Gives p m h v
  step-Gives (broadcasts updates) m h v = (_, refl, broadcast-IsSound _ m v)
  step-Gives delivers m h v = take_broadcast-Gives m v
  step-Gives (checks now) m h v =
      check_each-Gives now m.clients m v.distinct (entries_found m.clients v.distinct) v
  step-Gives (pongs p now) m h v = (_, refl, write-IsSound p _ m refl refl v)
  step-Gives (filters_changed p filters) m h v = (_, refl, write-IsSound p _ m refl refl v)
  step-Gives (writes p) m h v = (_, refl, write_message-IsSound p m v)

  -- The states that a manager can come to while it runs: before `Stop`, which Stop models.
  pub data Runs : Manager F → Type 0 where
    start : Runs new_manager
    next : (e : Event F) (m m' : Manager F) → Runs m → CanOccur e m → step e m ≡ some m' → Runs m'

  pub Runs-IsSound : (m : Manager F) → Runs m → IsSound m
  Runs-IsSound _ start = new-IsSound
  Runs-IsSound _ (next e m m' r h is) =
      let (m'', is', v) = step-Gives e m h (Runs-IsSound m r) in
      let same : m'' ≡ m' = cc in rw same at v

  -- As long as `Stop` has not been called, and each client that registers has an identifier that no
  -- client has had before: in every state that a manager can come to, whatever the order of its
  -- events, each event that can occur is handled without a panic, and leads to a state in which the
  -- map holds exactly the clients that are open, each once and under its identifier: no channel is
  -- closed twice, none is sent to when it is closed, and no client is left open when it is out of the
  -- map.
  pub manager_safe :
      (m : Manager F) (e : Event F)
      → Runs m
      → CanOccur e m
      → (m' : Manager F) × (step e m ≡ some m') × IsSound m'
  manager_safe m e r h = step-Gives e m h (Runs-IsSound m r)
