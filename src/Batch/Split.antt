-- ===== src/Batch/Split.antt =====
-- pkg/batch/processor.go, `splitIntoBatches`.
use vehicle_telematics.Base.{
  ℕ, ◌+◌, ◌*◌, ◌≤◌, ◌<◌, String, ◌≡◌, refl, ap, ◌∙◌, false, List, [], ◌∷◌, ◌++◌, none, arith,
  if◌then◌else◌, ltb, lt→ltb, insert, lookup, Distinct, length, length-append, flat, All, str_eq,
  eq_iff, Bool-cases, inl, inr,
}
use mathlib.Core.List.{append_assoc, append-nil}
use vehicle_telematics.Base.Int.{ℤ, pos, leb_ℤ}

module _ {ℓ} {U : Type ℓ} where
  -- The loop, from the batch that is being filled.
  unfoldable pub split_from : ℤ → List (String × U) → List (String × U) → List (List (String × U))
  split_from size current [] = if ltb 0 (length current) then current ∷ [] else []
  split_from size current ((k, u) ∷ updates) =
      let filled = insert k u current in
      let closed = filled ∷ split_from size [] updates in
      let opened = split_from size filled updates in
      if leb_ℤ size (pos (length filled)) then closed else opened

  unfoldable pub split_into_batches : ℤ → List (String × U) → List (List (String × U))
  unfolding split_from
  split_into_batches size updates =
      if leb_ℤ (pos (length updates)) size then updates ∷ [] else split_from size [] updates

  insert_new :
      (k : String) (u : U) (m : List (String × U))
      → lookup k m ≡ none
      → insert k u m ≡ m ++ (k, u) ∷ []
  unfolding insert lookup
  insert_new k u [] h = refl
  insert_new k u ((j, w) ∷ m) h = ground (arith, insert_new k u m)

  apart :
      (j k : String) (u : U) (a b : List (String × U))
      → lookup j (a ++ (k, u) ∷ b) ≡ none
      → str_eq k j ≡ false
  unfolding lookup
  apart j k u [] b h = ground arith
  apart j k u ((i, w) ∷ a) b h = ground (arith, apart j k u a b)

  lookup-front :
      (k : String) (u : U) (a b : List (String × U))
      → Distinct (a ++ (k, u) ∷ b)
      → lookup k a ≡ none
  unfolding lookup
  lookup-front k u [] b d = refl
  lookup-front k u ((j, w) ∷ a) b d =
      ground (arith, apart j k u a b d.0, eq_iff j k, eq_iff k j, lookup-front k u a b d.1)

  -- The batch being filled grows by the next update.
  filled_lem :
      (k : String) (u : U) (current updates : List (String × U))
      → Distinct (current ++ (k, u) ∷ updates)
      → insert k u current ++ updates ≡ current ++ (k, u) ∷ updates
  filled_lem k u current updates d =
      rw (insert_new k u current (lookup-front k u current updates d))
        (append_assoc current ((k, u) ∷ []) updates)

  Distinct-tail : (a b : List (String × U)) → Distinct (a ++ b) → Distinct b
  Distinct-tail [] b d = d
  Distinct-tail (x ∷ a) b d = Distinct-tail a b d.1

  flat-split_from :
      (size : ℤ) (current updates : List (String × U))
      → Distinct (current ++ updates)
      → flat (split_from size current updates) ≡ current ++ updates
  unfolding split_from
  flat-split_from size [] [] d = refl
  flat-split_from size (x ∷ current) [] d = rw (lt→ltb 0 (length (x ∷ current)) (omega arith))
  flat-split_from size current ((k, u) ∷ updates) d =
      let grown = filled_lem k u current updates d in
      elim (Bool-cases (leb_ℤ size (pos (length (insert k u current))))) [
        | inl full ↦ rw full (
            rw (flat-split_from size [] updates (Distinct-tail current ((k, u) ∷ updates) d).1)
              grown)
        | inr room ↦
            rw room (flat-split_from size (insert k u current) updates (rw grown d) ∙ grown)
      ]

  -- What the loop keeps: each batch is filled to at most the size, and holds an update.
  abbrev Fits : ℕ → List (String × U) → Type 0
  Fits n batch = (1 ≤ length batch) × (length batch ≤ n)

  length-filled :
      (k : String) (u : U) (current updates : List (String × U))
      → Distinct (current ++ (k, u) ∷ updates)
      → length (insert k u current) ≡ length current + 1
  length-filled k u current updates d =
      ap length (insert_new k u current (lookup-front k u current updates d))
      ∙ length-append current ((k, u) ∷ [])

  split_from-Fits :
      (n : ℕ) (current updates : List (String × U))
      → Distinct (current ++ updates)
      → length current < n
      → All (Fits n) (split_from (pos n) current updates)
        × (length (split_from (pos n) current updates) * n < length current + length updates + n)
  unfolding split_from
  split_from-Fits n [] [] d h = (tt, omega arith)
  split_from-Fits n (x ∷ current) [] d h =
      rw (lt→ltb 0 (length (x ∷ current)) (omega arith))
        (((omega arith, omega arith), tt), omega arith)
  split_from-Fits n current ((k, u) ∷ updates) d h =
      let grown = length-filled k u current updates d in
      elim (Bool-cases (leb_ℤ (pos n) (pos (length (insert k u current))))) [
        | inl full ↦
            let rest =
              split_from-Fits n [] updates (Distinct-tail current ((k, u) ∷ updates) d).1
                (omega arith) in
            let size : n ≤ length (insert k u current) = ground arith in
            rw full (((omega arith, omega arith), rest.0), omega arith)
        | inr room ↦
            let below : length (insert k u current) < n = ground arith in
            let rest =
              split_from-Fits n (insert k u current) updates
                (rw (filled_lem k u current updates d) d) below in
            rw room (rest.0, omega arith)
      ]

  -- For a map with updates and a batch size of at least 1, `splitIntoBatches` gives batches that
  -- hold all updates, in order and each once; no batch is empty or larger than the size, and there
  -- are no more batches than full ones would need.
  pub split_into_batches_lem :
      (n : ℕ) (updates : List (String × U))
      → 1 ≤ n
      → 1 ≤ length updates
      → Distinct updates
      → let batches = split_into_batches (pos n) updates in
        (flat batches ≡ updates) × All (Fits n) batches × (length batches * n < length updates + n)
  unfolding split_into_batches
  split_into_batches_lem n updates h full d =
      elim (Bool-cases (leb_ℤ (pos (length updates)) (pos n))) [
        | inl small ↦
            let size : length updates ≤ n = ground arith in
            rw small (append-nil updates, ((full, size), tt), omega arith)
        | inr large ↦
            let r = split_from-Fits n [] updates d h in
            rw large (flat-split_from (pos n) [] updates d, r.0, omega (arith, r.1))
      ]
