-- ===== src/Batch/Processor/Saves.antt =====
-- A batch that `ProcessBatch` reports as processed has been written, whichever way it took.
use vehicle_telematics.Base.{
  Distinct, All-map, ℕ, zero, suc, ◌+◌, ◌-◌, ◌≤◌, String, ◌≡◌, refl, ap, ◌∙◌, inl, inr, Bool, true,
  false, List, [], ◌∷◌, Option, none, some, if◌then◌else◌, ◌==◌, length, arith, All, All-append,
  flat, Bool-cases,
}
use vehicle_telematics.Base.Int.{ℤ, pos, ltb_ℤ, pos_part}
use vehicle_telematics.Base.Float.{Float}
use vehicle_telematics.Base.Time.{Time, Duration}
use vehicle_telematics.Batch.Update.{VehicleUpdateData}
use vehicle_telematics.Batch.Config.{BatchConfig}
use vehicle_telematics.Batch.Split.{split_into_batches, split_into_batches_lem}
use vehicle_telematics.Batch.Processor.{
  Updates, Outside, BatchStats, BatchProcessor, BatchError, unexpected, broadcast_batch,
  update_each, fallback_to_individual_updates, attempt_write, retry_from, process_single_batch,
  process_each, process_batch, backoff_duration, increment_failed_updates,
}

-- What is relied on of the repository, for `Saved k u w`, "the update `u` of vehicle `k` has been
-- written before `w`": a write that reports success has written, and nothing takes that back.
pub record Durable {F : Float} {W : Type 0} (out : Outside F W)
    (Saved : String → VehicleUpdateData F → W → Type 0) : Type 0 where
  pub batch_saved :
      (b : Updates F) (w : W)
      → (out.update_vehicles_batch b w).1 ≡ true
      → All (λ e. Saved e.0 e.1 (out.update_vehicles_batch b w).0) b
  pub one_saved :
      (k : String) (u : VehicleUpdateData F) (w : W)
      → (out.update_vehicle k u w).1 ≡ true
      → Saved k u (out.update_vehicle k u w).0
  pub batch_keeps :
      (b : Updates F) (w : W) (k : String) (u : VehicleUpdateData F)
      → Saved k u w
      → Saved k u (out.update_vehicles_batch b w).0
  pub one_keeps :
      (j : String) (v : VehicleUpdateData F) (w : W) (k : String) (u : VehicleUpdateData F)
      → Saved k u w
      → Saved k u (out.update_vehicle j v w).0
  pub wait_keeps :
      (d : ℤ) (w : W) (k : String) (u : VehicleUpdateData F)
      → Saved k u w
      → Saved k u (out.wait_or_done d w).0
  pub broadcast_keeps :
      (us : List _) (w : W) (k : String) (u : VehicleUpdateData F)
      → Saved k u w
      → Saved k u (out.broadcast_batch_updates us w)

All-flat {ℓ κ} :
    {A : Type ℓ} (P : A → Type κ) (xss : List (List A)) → All (All P) xss → All P (flat xss)
All-flat P [] h = tt
All-flat P (xs ∷ xss) h = All-append P xs (flat xss) h.0 (All-flat P xss h.1)

no_errors :
    (result : Option BatchError) (errors : ℕ)
    → elim result [ none ↦ errors | some _ ↦ errors + 1 ] ≡ 0
    → (result ≡ none) × (errors ≡ 0)
no_errors none errors h = (refl, h)
no_errors (some e) errors h = absurd (omega arith)

empty_of_length {ℓ} : {A : Type ℓ} (xs : List A) → length xs ≡ 0 → xs ≡ []
empty_of_length [] h = refl
empty_of_length (x ∷ xs) h = absurd (omega arith)

none_failed :
    (saved : Bool) (k : String) (failed : List String)
    → (if saved then failed else k ∷ failed) ≡ []
    → (saved ≡ true) × (failed ≡ [])
none_failed true k failed h = (refl, h)
none_failed false k failed h = cc

module _ {F : Float} {W : Type 0} (out : Outside F W)
    (Saved : String → VehicleUpdateData F → W → Type 0) (durable : Durable out Saved) where
  abbrev AllSaved : Updates F → W → Type 0
  AllSaved batch w = All (λ e. Saved e.0 e.1 w) batch

  update_each-keeps :
      (batch : Updates F) (stats : BatchStats F) (w : W) (k : String) (u : VehicleUpdateData F)
      → Saved k u w
      → Saved k u (update_each out batch stats w).1
  unfolding update_each
  update_each-keeps [] stats w k u h = h
  update_each-keeps ((j, v) ∷ batch) stats w k u h =
      update_each-keeps batch
        (if (out.update_vehicle j v w).1 then stats else increment_failed_updates stats)
        (out.update_vehicle j v w).0 k u (durable.one_keeps j v w k u h)

  update_each-saves :
      (batch : Updates F) (stats : BatchStats F) (w : W)
      → (update_each out batch stats w).2 ≡ []
      → AllSaved batch (update_each out batch stats w).1
  unfolding update_each
  update_each-saves [] stats w h = tt
  update_each-saves ((k, u) ∷ batch) stats w h =
      let stats' =
        (if (out.update_vehicle k u w).1 then stats else increment_failed_updates stats) in
      let w' = (out.update_vehicle k u w).0 in
      let both = none_failed (out.update_vehicle k u w).1 k (update_each out batch stats' w').2 h in
      (
        update_each-keeps batch stats' w' k u (durable.one_saved k u w both.0),
        update_each-saves batch stats' w' both.1,
      )

  -- The outcome of the writing of one batch: nothing that was saved is lost, and if there is no
  -- error the batch is saved.
  abbrev Good : Updates F → W → BatchStats F × W × Option BatchError → Type 0
  Good batch w r =
      ((k : String) (u : VehicleUpdateData F) → Saved k u w → Saved k u r.1)
      × (r.2 ≡ none → AllSaved batch r.1)

  fallback-Good :
      (batch : Updates F) (stats : BatchStats F) (w : W)
      → Good batch w (fallback_to_individual_updates out batch stats w)
  unfolding fallback_to_individual_updates
  fallback-Good batch stats w =
      (update_each-keeps batch stats w, λ e. update_each-saves batch stats w (ground arith))

  attempt-Good :
      (left : ℕ) (batch : Updates F) (stats : BatchStats F)
      (retry : W → BatchStats F × W × Option BatchError) (w : W)
      → ((w : W) → Good batch w (retry w))
      → Good batch w (attempt_write out left batch stats retry w)
  unfolding attempt_write broadcast_batch
  attempt-Good left batch stats retry w next =
      elim (Bool-cases (out.update_vehicles_batch batch w).1) [
        | inl saved ↦
            rw (saved, attempt_write)
              (
                λ k u h. durable.broadcast_keeps _ _ k u (durable.batch_keeps batch w k u h),
                λ _.
                    All-map batch (λ e h. durable.broadcast_keeps _ _ e.0 e.1 h)
                      (durable.batch_saved batch w saved),
              )
        | inr lost ↦ rw (lost, attempt_write) (later (left == 0))
      ]
    where
      w' : W
      w' = (out.update_vehicles_batch batch w).0

      later :
          (last : Bool)
          → Good batch w
              (if last then fallback_to_individual_updates out batch stats w' else retry w')
      later true =
          let g = fallback-Good batch stats w' in
          (λ k u h. g.0 k u (durable.batch_keeps batch w k u h), g.1)
      later false = let g = next w' in (λ k u h. g.0 k u (durable.batch_keeps batch w k u h), g.1)

  waited-Good :
      (d : ℤ) (batch : Updates F) (stats : BatchStats F) (w : W)
      (r : BatchStats F × W × Option BatchError)
      → Good batch (out.wait_or_done d w).0 r
      → Good batch w (
          if (out.wait_or_done d w).1
          then (stats, (out.wait_or_done d w).0, some BatchError.stopped_in_retry)
          else r)
  waited-Good d batch stats w r g =
      elim (out.wait_or_done d w).1
        as (λ b.
          Good batch w (
            if b then (stats, (out.wait_or_done d w).0, some BatchError.stopped_in_retry) else r)) [
              | true ↦ (λ k u h. durable.wait_keeps d w k u h, λ e. absurd (cc))
              | false ↦ (λ k u h. g.0 k u (durable.wait_keeps d w k u h), g.1)
            ]

  never_Good :
      (batch : Updates F) (stats : BatchStats F) (w : W) → Good batch w (stats, w, some unexpected)
  never_Good batch stats w = (λ k u h. h, λ e. absurd (cc))

  retry-Good :
      (config : BatchConfig) (left attempt : ℕ) (batch : Updates F) (stats : BatchStats F) (w : W)
      → Good batch w (retry_from out config left attempt batch stats w)
  unfolding retry_from
  retry-Good config zero attempt batch stats w =
      waited-Good (backoff_duration config attempt) batch stats w _
        (attempt-Good 0 batch stats (λ w. (stats, w, some unexpected)) _ (never_Good batch stats))
  retry-Good config (suc left) attempt batch stats w =
      waited-Good (backoff_duration config attempt) batch stats w _ (
        attempt-Good (suc left) batch stats (retry_from out config left (attempt + 1) batch stats) _
          (retry-Good config left (attempt + 1) batch stats))

  single-Good :
      (config : BatchConfig) (batch : Updates F) (stats : BatchStats F) (w : W)
      → Good batch w (process_single_batch out config batch stats w)
  unfolding process_single_batch
  single-Good config batch stats w = elim (Bool-cases (ltb_ℤ config.retry_attempts (pos 0))) [
    | inl never ↦ rw (never, process_single_batch) (λ k u h. h, λ e. absurd (cc))
    | inr some_rounds ↦
        rw (some_rounds, process_single_batch)
          (attempt-Good (pos_part config.retry_attempts) batch stats
            (retry_from out config (pos_part config.retry_attempts - 1) 1 batch stats) w
            (retry-Good config (pos_part config.retry_attempts - 1) 1 batch stats))
  ]

  each-Good :
      (config : BatchConfig) (batches : List (Updates F)) (stats : BatchStats F) (w : W)
      → ((k : String) (u : VehicleUpdateData F)
          → Saved k u w
          → Saved k u (process_each out config batches stats w).1)
        × ((process_each out config batches stats w).2 ≡ 0
            → All (λ b. AllSaved b (process_each out config batches stats w).1) batches)
  unfolding process_each
  each-Good config [] stats w = (λ k u h. h, λ _. tt)
  each-Good config (batch ∷ batches) stats w =
      let g = single-Good config batch stats w in
      let r = process_single_batch out config batch stats w in
      let rest = each-Good config batches r.0 r.1 in
      (
        λ k u h. rest.0 k u (g.0 k u h),
        λ e.
            let both = no_errors r.2 (process_each out config batches r.0 r.1).2 e in
            (All-map batch (λ x h. rest.0 x.0 x.1 h) (g.1 both.0), rest.1 both.1),
      )

  -- When `ProcessBatch` reports no error, every update that was pending has been written, whether
  -- in its batch at some attempt or one by one; in any case nothing written before is lost, and
  -- after a call with updates pending none is pending. The batch size is positive, and a vehicle
  -- has at most one pending update.
  pub process_batch-saves :
      (n : ℕ) (bp : BatchProcessor F) (now : Time) (elapsed : Duration) (w : W)
      → bp.config.max_batch_size ≡ pos n
      → 1 ≤ n
      → Distinct bp.updates
      → let (after, w', result) = process_batch out bp now elapsed w in
        (result ≡ none → AllSaved bp.updates w')
        × ((k : String) (u : VehicleUpdateData F) → Saved k u w → Saved k u w')
        × (after.updates ≡ [])
  unfolding process_batch
  process_batch-saves n bp now elapsed w size h d = elim (Bool-cases (length bp.updates == 0)) [
    | inl empty ↦
        let none_left = empty_of_length bp.updates (ground arith) in
        rw (empty, process_batch)
          (λ _. nothing_pending bp.updates w none_left, λ k u s. s, none_left)
    | inr some_left ↦
        rw (some_left, process_batch)
          (
            λ e. written _ (split (ground arith)) (All-flat _ batches (each.1 (ground arith))),
            each.0,
            refl,
          )
  ]
    where
      batches : List (Updates F)
      batches = split_into_batches bp.config.max_batch_size bp.updates

      each :
          ((k : String) (u : VehicleUpdateData F)
            → Saved k u w
            → Saved k u (process_each out bp.config batches bp.stats w).1)
          × ((process_each out bp.config batches bp.stats w).2 ≡ 0
              → All (λ b. AllSaved b (process_each out bp.config batches bp.stats w).1) batches)
      each = each-Good bp.config batches bp.stats w

      nothing_pending : (us : Updates F) (w : W) → us ≡ [] → AllSaved us w
      nothing_pending us w e = rw e tt

      written : {us vs : Updates F} (w : W) → us ≡ vs → AllSaved us w → AllSaved vs w
      written w e h = rw e at h

      split : 1 ≤ length bp.updates → flat batches ≡ bp.updates
      split some_left =
          ap (λ s. flat (split_into_batches s bp.updates)) size
          ∙ (split_into_batches_lem n bp.updates h some_left d).0
