-- ===== src/Socket/Manager/Delivery.antt =====
-- What `broadcastToClients` does to each client.
use vehicle_telematics.Base.{
  ℕ, ◌<◌, String, ◌≡◌, refl, sym, ap, ◌∙◌, ◌≢◌, inl, inr, true, false, List, [], ◌∷◌, ◌++◌, Option,
  none, some, if◌then◌else◌, ltb, ◌==◌, ==_iff, length, lookup, Distinct, entries_found, All,
  All-map, All-zip, All-lookup, eq_iff, arith, Bool-cases, if_refused, if_accepted,
}
use vehicle_telematics.Base.Float.{Float}
use vehicle_telematics.Socket.Types.{VehicleUpdate}
use vehicle_telematics.Socket.Filters.{should_send_to_client}
use vehicle_telematics.Socket.Manager.{
  Client, Manager, send_buffer, write, send_to_client, send_to_each, broadcast_to_clients,
}
use vehicle_telematics.Socket.Manager.Sound.{IsSound, Gives}
use vehicle_telematics.Socket.Manager.Safety.{Runs, Runs-IsSound}

module _ {F : Float} where
  -- A client after an update that its filters let through is at the end of its channel if there is
  -- room for it, and lost with the client marked otherwise.
  unfoldable pub told : VehicleUpdate F → Client F → Client F
  told update client =
      if should_send_to_client client.filters update
      then (if ltb (length client.send) send_buffer
          then record client { send = client.send ++ update ∷ [] }
          else record client { is_active = false })
      else client

  -- The one client `p` becomes `c`.
  abbrev Outcome : ℕ → Manager F → Option (Manager F) → Client F → Type 0
  Outcome p m o c =
      (m' : Manager F) × (o ≡ some m')
      × (m'.clients ≡ m.clients)
      × (m'.objects p ≡ c)
      × ((q : ℕ) → q ≢ p → m'.objects q ≡ m.objects q)

  write-Outcome : (p : ℕ) (c : Client F) (m : Manager F) → Outcome p m (some (write p c m)) c
  write-Outcome p c m = (
    _,
    refl,
    refl,
    rw ((==_iff p p).1 refl) refl,
    λ q h. let other : (q == p) ≡ false = ground arith in rw other refl,
  )

  send_to_client-Outcome :
      (update : VehicleUpdate F) (p : ℕ) (m : Manager F)
      → (m.objects p).is_closed ≡ false
      → Outcome p m (send_to_client update p m) (told update (m.objects p))
  unfolding send_to_client told
  send_to_client-Outcome update p m o =
      elim (should_send_to_client client.filters update)
        as (λ b. Outcome p m (if b then whole else some m) (if b then after else client)) [
          | true ↦
              if_refused (λ w. Outcome p m w after) client.is_closed none o
                (elim (ltb (length client.send) send_buffer)
                  as (λ b.
                    Outcome p m (if b then some (write p sent m) else some (write p marked m))
                      (if b then sent else marked)) [
                        | true ↦ write-Outcome p sent m
                        | false ↦ write-Outcome p marked m
                      ])
          | false ↦ (m, refl, refl, refl, λ q h. refl)
        ]
    where
      client : Client F
      client = m.objects p

      sent : Client F
      sent = record client { send = client.send ++ update ∷ [] }

      marked : Client F
      marked = record client { is_active = false }

      after : Client F
      after = if ltb (length client.send) send_buffer then sent else marked

      whole : Option (Manager F)
      whole =
          if client.is_closed
          then none
          else if ltb (length client.send) send_buffer
          then some (write p sent m)
          else some (write p marked m)

  -- `m'` is `m` after the clients of the entries have been told.
  record Tells (update : VehicleUpdate F) (entries : List (String × ℕ)) (m m' : Manager F)
      : Type 0 where
    same_clients : m'.clients ≡ m.clients
    told_all : All (λ (e : String × ℕ). m'.objects e.1 ≡ told update (m.objects e.1)) entries
    others : (q : ℕ) → All (λ (e : String × ℕ). q ≢ e.1) entries → m'.objects q ≡ m.objects q

  -- The client of the entry is open, and stands under its own identifier.
  abbrev IsOpen : Manager F → String × ℕ → Type 0
  IsOpen m e = ((m.objects e.1).id ≡ e.0) × ((m.objects e.1).is_closed ≡ false)

  -- The entries that follow have other clients.
  apart :
      (m : Manager F) (k : String) (p : ℕ) (entries : List (String × ℕ))
      → (m.objects p).id ≡ k
      → lookup k entries ≡ none
      → All (IsOpen m) entries
      → All (λ (e : String × ℕ). (e.1 ≢ p) × IsOpen m e) entries
  unfolding lookup
  apart m k p [] own h f = tt
  apart m k p ((j, q) ∷ entries) own h f = (
    (
      λ e.
          let same : j ≡ k = sym f.0.0 ∙ ap (λ r. (m.objects r).id) e ∙ own in
          absurd (ground (arith, eq_iff j k)),
      f.0,
    ),
    apart m k p entries own (ground arith) f.1,
  )

  send_to_each-Tells :
      (update : VehicleUpdate F) (entries : List (String × ℕ)) (m : Manager F)
      → Distinct entries
      → All (IsOpen m) entries
      → Gives (send_to_each update entries m) (Tells update entries m)
  unfolding send_to_each
  send_to_each-Tells update [] m d f =
      (m, refl, record { same_clients = refl; told_all = tt; others = λ q h. refl })
  send_to_each-Tells update ((k, p) ∷ entries) m d f =
      let (m₁, is, c, here, there) = send_to_client-Outcome update p m f.0.1 in
      let far = apart m k p entries f.0.0 d.0 f.1 in
      let (m', is', t) =
        send_to_each-Tells update entries m₁ d.1
          (All-map entries (λ (e : String × ℕ) h. rw (there e.1 h.0) h.1) far) in
      (
        m',
        rw (is, send_to_each) is',
        record {
          same_clients = t.same_clients ∙ c;
          told_all = (
            t.others p (All-map entries (λ (e : String × ℕ) h g. h.0 (sym g)) far) ∙ here,
            All-map entries (λ (e : String × ℕ) h. h.1 ∙ ap (told update) (there e.1 h.0.0))
                (All-zip _ _ entries far t.told_all),
          );
          others = λ q h. t.others q h.1 ∙ there q h.0;
        },
      )

  -- In any state that the manager can come to before `Stop` is called, with an identifier of its own
  -- for each client that registers, `broadcastToClients` does not panic. It changes each
  -- open client by itself: one whose filters let the update through finds it at the end of its
  -- channel, or, where the channel is full, loses it and is marked as inactive. All other clients,
  -- and the map, stay as they are.
  pub broadcast_to_clients_lem :
      (update : VehicleUpdate F) (m : Manager F)
      → Runs m
      → (m' : Manager F) × (broadcast_to_clients update m ≡ some m')
        × (m'.clients ≡ m.clients)
        × ((p : ℕ)
            → p < m.allocated
            → m'.objects p
              ≡ (if (m.objects p).is_closed then m.objects p else told update (m.objects p)))
  unfolding broadcast_to_clients
  broadcast_to_clients_lem update m r =
      let (m', is, t) = send_to_each-Tells update m.clients m v.distinct entries_open in
      (
        m',
        is,
        t.same_clients,
        λ p h. elim (Bool-cases (m.objects p).is_closed) [
          | inr o ↦
              if_refused (λ c. m'.objects p ≡ c) (m.objects p).is_closed (m.objects p) o
                (All-lookup (λ (e : String × ℕ). m'.objects e.1 ≡ told update (m.objects e.1))
                  (m.objects p).id p m.clients t.told_all (v.kept p h o))
          | inl c ↦
              if_accepted (λ c. m'.objects p ≡ c) (m.objects p).is_closed _ c
                (t.others p (
                  All-map m.clients
                    (λ (e : String × ℕ) f g.
                      let o : (m.objects p).is_closed ≡ false =
                        ap (λ q. (m.objects q).is_closed) g ∙ f.1 in
                      absurd (cc))
                    entries_open))
        ],
      )
    where
      v : IsSound m
      v = Runs-IsSound m r

      entries_open : All (IsOpen m) m.clients
      entries_open =
          All-map m.clients (λ (e : String × ℕ) f. ((v.listed e.0 e.1 f).1, (v.listed e.0 e.1 f).2))
            (entries_found m.clients v.distinct)
