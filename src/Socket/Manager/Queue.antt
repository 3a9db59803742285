-- ===== src/Socket/Manager/Queue.antt =====
-- The queue of the manager's loop: which updates are accepted, and in which order.
use vehicle_telematics.Base.{
  ℕ, suc, sym, ◌∙◌, ap, take-nil, take-append, length-take, ◌+◌, ◌-◌, ◌≤◌, ◌≡◌, Bool, true, false,
  not, ◌||◌, refl, str_eq, eq_iff, List, [], ◌∷◌, ◌++◌, if◌then◌else◌, ltb, take, select, length,
  length-append, arith, Bool-cases, inl, inr,
}
use mathlib.Core.List.{append_assoc, append-nil}
use vehicle_telematics.Base.Float.{Float}
use vehicle_telematics.Socket.Types.{VehicleUpdate}
use vehicle_telematics.Socket.Manager.{
  Manager, broadcast_buffer, priority_order, offer, offer_each, goes_first, broadcast_batch_updates,
}

module _ {F : Float} where
  -- Offering in turn is taking as many as fit.
  offer_each-take :
      (now : VehicleUpdate F → Bool) (updates broadcast : List (VehicleUpdate F))
      → length broadcast ≤ broadcast_buffer
      → offer_each now updates broadcast
        ≡ broadcast ++ take (broadcast_buffer - length broadcast) (select now updates)
  unfolding offer_each offer
  offer_each-take now [] broadcast h =
      rw (take-nil {A = VehicleUpdate F} (broadcast_buffer - length broadcast))
        (sym (append-nil broadcast))
  offer_each-take now (u ∷ updates) broadcast h = elim (Bool-cases (now u)) [
    | inr skipped ↦ rw skipped (offer_each-take now updates broadcast h)
    | inl offered ↦ elim (Bool-cases (ltb (length broadcast) broadcast_buffer)) [
      | inl room ↦
          let one_more = length-append broadcast (u ∷ []) in
          let left : broadcast_buffer - length broadcast
              ≡ suc (broadcast_buffer - length (broadcast ++ u ∷ [])) =
            ground arith in
          rw (offered, room, left)
            (offer_each-take now updates (broadcast ++ u ∷ []) (ground arith)
              ∙ append_assoc broadcast (u ∷ [])
                  (take (broadcast_buffer - length (broadcast ++ u ∷ [])) (select now updates)))
      | inr full ↦
          let none_left : broadcast_buffer - length broadcast ≡ 0 = ground arith in
          let later = offer_each-take now updates broadcast h in
          rw (offered, full, none_left) (rw none_left at later)
    ]
  ]

  unfoldable goes_later : VehicleUpdate F → Bool
  goes_later u = if goes_first u then false else true

  batch_offered :
      (updates : List (VehicleUpdate F)) (m : Manager F)
      → length m.broadcast ≤ broadcast_buffer
      → (broadcast_batch_updates updates m).broadcast
        ≡ m.broadcast
          ++ take
              (broadcast_buffer - length m.broadcast)
              (select goes_first updates ++ select goes_later updates)
  unfolding broadcast_batch_updates goes_later
  batch_offered updates m h = rw (offer_each-take goes_first updates m.broadcast h) (
      offer_each-take goes_later updates (m.broadcast ++ take k first)
        (omega (arith, grown, length-take k first))
      ∙ append_assoc m.broadcast (take k first)
          (take (broadcast_buffer - length (m.broadcast ++ take k first)) last)
      ∙ ap (λ xs. m.broadcast ++ xs)
          (ap (λ j. take k first ++ take j last) left ∙ sym (take-append k first last)))
    where
      k : ℕ
      k = broadcast_buffer - length m.broadcast

      first : List (VehicleUpdate F)
      first = select goes_first updates

      last : List (VehicleUpdate F)
      last = select goes_later updates

      grown : length (m.broadcast ++ take k first) ≡ length m.broadcast + length (take k first)
      grown = length-append m.broadcast (take k first)

      left : broadcast_buffer - length (m.broadcast ++ take k first) ≡ k - length first
      left = omega (arith, grown, length-take k first)

  -- The priority is medium or low.
  unfoldable pub is_minor : VehicleUpdate F → Bool
  is_minor u = str_eq u.priority "medium" || str_eq u.priority "low"

  -- It is critical, high or none of the four texts.
  unfoldable pub is_urgent : VehicleUpdate F → Bool
  unfolding is_minor
  is_urgent u = not (is_minor u)

  goes_first_lem : (u : VehicleUpdate F) → goes_first u ≡ is_urgent u
  unfolding goes_first priority_order is_urgent is_minor
  goes_first_lem u = elim (Bool-cases (str_eq u.priority "medium")) [
    | inl medium ↦ let is = (eq_iff u.priority "medium").0 medium in rw (is, priority_order) refl
    | inr a ↦ elim (Bool-cases (str_eq u.priority "low")) [
      | inl low ↦ let is = (eq_iff u.priority "low").0 low in rw (is, priority_order) refl
      | inr b ↦ rw (priority_order, a, b) (ground arith)
    ]
  ]

  goes_later_lem : (u : VehicleUpdate F) → goes_later u ≡ is_minor u
  unfolding goes_later is_urgent
  goes_later_lem u = rw (goes_first_lem u) (twice (is_minor u))
    where
      twice : (b : Bool) → (if not b then false else true) ≡ b
      twice true = refl
      twice false = refl

  select_same :
      (p q : VehicleUpdate F → Bool) (us : List (VehicleUpdate F))
      → ((u : VehicleUpdate F) → p u ≡ q u)
      → select p us ≡ select q us
  select_same p q [] h = refl
  select_same p q (u ∷ us) h = rw (h u, select_same p q us h) refl

  -- After `BroadcastBatchUpdates` the queue of at most 1000 has grown by as many of the updates as
  -- there was room for: first those of the priorities critical and high, and those whose priority
  -- is none of the four texts, then those of medium and low, each group in its order. What does not fit is dropped.
  pub broadcast_batch_updates_lem :
      (updates : List (VehicleUpdate F)) (m : Manager F)
      → length m.broadcast ≤ broadcast_buffer
      → (broadcast_batch_updates updates m).broadcast
        ≡ m.broadcast
          ++ take
              (broadcast_buffer - length m.broadcast)
              (select is_urgent updates ++ select is_minor updates)
  broadcast_batch_updates_lem updates m h =
      rw
        (
          ← select_same goes_first is_urgent updates goes_first_lem,
          ← select_same goes_later is_minor updates goes_later_lem,
        )
        (batch_offered updates m h)
