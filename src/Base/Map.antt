-- ===== src/Base/Map.antt =====
-- Go maps with string keys, as association lists in the order in which a `range` visits them.
use Prim.Native.Nat.{◌+◌, ◌≤◌}
use Prim.Native.String.{String}
use mathlib.Core.Path.{◌≡◌, refl}
use mathlib.Core.Logic.{◌≢◌, inl, inr}
use mathlib.Core.Bool.{Bool, true, false}
use mathlib.Core.List.{List, [], ◌∷◌}
use mathlib.Core.Option.{Option, none, some}
use native.Mathlib.Omega.{arith}
use text.Mathlib.Text.{◌==◌ as str_eq}
use text.Mathlib.TextEquality.{eq_iff}
use text.Mathlib.TextPositions.{eq_refl}
use vehicle_telematics.Base.Tests.{if◌then◌else◌, Bool-cases}
use vehicle_telematics.Base.Lists.{length, All, All-map}

module _ {ℓ} {V : Type ℓ} where
  unfoldable pub lookup : String → List (String × V) → Option V
  lookup key [] = none
  lookup key ((k, v) ∷ entries) = if str_eq k key then some v else lookup key entries

  -- `m[key] = value`
  unfoldable pub insert : String → V → List (String × V) → List (String × V)
  insert key value [] = (key, value) ∷ []
  insert key value ((k, v) ∷ entries) =
      if str_eq k key then (key, value) ∷ entries else (k, v) ∷ insert key value entries

  -- `delete(m, key)`
  unfoldable pub remove : String → List (String × V) → List (String × V)
  remove key [] = []
  remove key ((k, v) ∷ entries) =
      if str_eq k key then remove key entries else (k, v) ∷ remove key entries

  pub lookup-insert :
      (key asked : String) (value : V) (entries : List (String × V))
      → lookup asked (insert key value entries)
        ≡ (if str_eq key asked then some value else lookup asked entries)
  unfolding lookup insert
  lookup-insert key asked value [] = refl
  lookup-insert key asked value ((k, v) ∷ entries) =
      let later = lookup-insert key asked value entries in
      ground (arith, later, eq_iff k asked, eq_iff k key, eq_iff key asked)

  pub lookup-insert_self :
      (k : String) (v : V) (m : List (String × V)) → lookup k (insert k v m) ≡ some v
  lookup-insert_self k v m = simp (lookup-insert, eq_refl)

  pub lookup-insert_ne :
      (k j : String) (v : V) (m : List (String × V)) → k ≢ j → lookup j (insert k v m) ≡ lookup j m
  lookup-insert_ne k j v m h = ground (arith, lookup-insert k j v m, eq_iff k j)

  pub lookup-remove :
      (k j : String) (m : List (String × V))
      → lookup j (remove k m) ≡ (if str_eq k j then none else lookup j m)
  unfolding lookup remove
  lookup-remove k j [] = ground arith
  lookup-remove k j ((i, w) ∷ m) =
      ground (arith, eq_iff k j, eq_iff i k, eq_iff i j, lookup-remove k j m)

  pub length-insert :
      (k : String) (v : V) (m : List (String × V)) → length (insert k v m) ≤ length m + 1
  unfolding insert
  length-insert k v [] = omega arith
  length-insert k v ((j, w) ∷ m) = ground (arith, length-insert k v m)

  -- A property of every value of a map.
  abbrev pub Values {κ} : (V → Type κ) → List (String × V) → Type κ
  Values P [] = Unit
  Values P ((k, v) ∷ m) = P v × Values P m

  pub Values-insert {κ} :
      (P : V → Type κ) (k : String) (v : V) (m : List (String × V))
      → P v
      → Values P m
      → Values P (insert k v m)
  unfolding insert
  Values-insert P k v [] p h = (p, h)
  Values-insert P k v ((j, w) ∷ m) p h =
      elim (str_eq j k) as (λ b. Values P (if b then (k, v) ∷ m else (j, w) ∷ insert k v m)) [
        | true ↦ (p, h.1)
        | false ↦ (h.0, Values-insert P k v m p h.1)
      ]

  pub Values-lookup {κ} :
      (P : V → Type κ) (k : String) (v : V) (m : List (String × V))
      → Values P m
      → lookup k m ≡ some v
      → P v
  unfolding lookup
  Values-lookup P k v [] h e = cc
  Values-lookup P k v ((j, w) ∷ m) h e = go (str_eq j k) e (Values-lookup P k v m h.1)
    where
      go :
          (b : Bool)
          → (if b then some w else lookup k m) ≡ some v
          → (lookup k m ≡ some v → P v)
          → P v
      go true e ih = rw (some_inj e) at h.0
        where
          some_inj : {a b : V} → some a ≡ some b → a ≡ b
          some_inj e = cc
      go false e ih = ih e

  -- No key occurs twice.
  abbrev pub Distinct : List (String × V) → Type ℓ
  Distinct [] = Unit
  Distinct ((k, u) ∷ m) = (lookup k m ≡ none) × Distinct m

  pub Distinct-insert :
      (k : String) (u : V) (m : List (String × V)) → Distinct m → Distinct (insert k u m)
  unfolding insert lookup
  Distinct-insert k u [] d = (refl, tt)
  Distinct-insert k u ((j, w) ∷ m) d = elim (Bool-cases (str_eq j k)) [
    | inl same ↦ rw (same, insert) (let e = (eq_iff j k).0 same in rw e at d)
    | inr other ↦
        rw (other, insert)
          (ground (arith, lookup-insert k j u m, eq_iff k j, eq_iff j k), Distinct-insert k u m d.1)
  ]

  pub Distinct-remove : (k : String) (m : List (String × V)) → Distinct m → Distinct (remove k m)
  unfolding remove
  Distinct-remove k [] d = tt
  Distinct-remove k ((j, w) ∷ m) d = elim (Bool-cases (str_eq j k)) [
    | inl same ↦ rw (same, remove) (Distinct-remove k m d.1)
    | inr other ↦
        rw (other, remove)
          (ground (arith, lookup-remove k j m, eq_iff k j, eq_iff j k), Distinct-remove k m d.1)
  ]

  -- Every entry of a map without repeated keys is found.
  pub entries_found :
      (m : List (String × V)) → Distinct m → All (λ (e : String × V). lookup e.0 m ≡ some e.1) m
  unfolding lookup
  entries_found [] d = tt
  entries_found ((k, v) ∷ m) d = (
    ground (arith, eq_refl k),
    All-map m (λ (e : String × V) h. ground (arith, eq_iff k e.0, eq_iff e.0 k, d.0, h))
        (entries_found m d.1),
  )

  -- What holds of every entry holds of the one that is found.
  pub All-lookup {κ} :
      (P : String × V → Type κ) (k : String) (v : V) (m : List (String × V))
      → All P m
      → lookup k m ≡ some v
      → P (k, v)
  unfolding lookup
  All-lookup P k v [] h e = absurd (cc)
  All-lookup P k v ((j, w) ∷ m) h e = elim (Bool-cases (str_eq j k)) [
    | inl same ↦
        let key : j ≡ k = (eq_iff j k).0 same in
        let value : w ≡ v = ground arith in rw (key, value) at h.0
    | inr other ↦ All-lookup P k v m h.1 (ground arith)
  ]
