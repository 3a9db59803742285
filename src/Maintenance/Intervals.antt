-- ===== src/Maintenance/Intervals.antt =====
-- internal/services/maintenance.go, `getServiceIntervalForTypes`.
use vehicle_telematics.Base.{
  String, ◌≡◌, refl, sym, ap, ◌∙◌, ◌⊎◌, inl, inr, Bool, true, false, List, [], ◌∷◌, Option, none,
  some, if◌then◌else◌, ◌==◌, length, lookup, All, All-map, arith, Bool-cases, if_refused,
  Option-cases,
}
use vehicle_telematics.Base.Int.{ℤ, pos, pos_part, neg_part, ltb_ℤ, ◌≤ℤ◌}
use vehicle_telematics.Maintenance.Types.{default_service_intervals}

abbrev pub default_interval : ℤ
default_interval = pos 10_000

-- The loop over the types: the shortest interval so far, and whether one was found.
unfoldable pub shortest_from : List String → ℤ → Bool → ℤ × Bool
shortest_from [] shortest found = (shortest, found)
shortest_from (t ∷ types) shortest found = elim (lookup t default_service_intervals) [
  | none ↦ shortest_from types shortest found
  | some interval ↦
      let shorter = shortest_from types interval true in
      let longer = shortest_from types shortest found in
      if ltb_ℤ interval shortest then shorter else longer
]

unfoldable pub shortest_interval : List String → ℤ
unfolding shortest_from
shortest_interval types =
    let (shortest, found) = shortest_from types (pos 100_000) false in
    if length types == 0 then default_interval else if found then shortest else default_interval

unfoldable pub get_service_interval_for_types : List String → Option ℤ → ℤ
unfolding shortest_interval
get_service_interval_for_types types custom = elim custom [
  | none ↦ shortest_interval types
  | some interval ↦ if ltb_ℤ (pos 0) interval then interval else shortest_interval types
]

-- One of the types has the interval.
abbrev pub IsIntervalOf : List String → ℤ → Type 0
IsIntervalOf [] n = ⊥
IsIntervalOf (t ∷ types) n = (lookup t default_service_intervals ≡ some n) ⊎ IsIntervalOf types n

-- No type has a shorter interval.
abbrev pub IsAtMost : ℤ → List String → Type 0
IsAtMost r types = All (λ t. (n : ℤ) → lookup t default_service_intervals ≡ some n → r ≤ℤ n) types

-- What the loop has found from `s` and `found`.
record IsFound (types : List String) (s : ℤ) (found : Bool) (r : ℤ × Bool) : Type 0 where
  below : r.0 ≤ℤ s
  at_most : IsAtMost r.0 types
  attained : ((r.0 ≡ s) × (r.1 ≡ found)) ⊎ ((r.1 ≡ true) × IsIntervalOf types r.0)

known_value :
    (t : String) {m n : ℤ}
    → lookup t default_service_intervals ≡ some m
    → lookup t default_service_intervals ≡ some n
    → m ≡ n
known_value t {m} {n} known e = let same : some m ≡ some n = sym known ∙ e in cc

-- A type without an interval changes nothing.
skip-IsFound :
    (t : String) (types : List String) (s : ℤ) (found : Bool) (r : ℤ × Bool)
    → ((n : ℤ) → lookup t default_service_intervals ≡ some n → s ≤ℤ n)
    → IsFound types s found r
    → IsFound (t ∷ types) s found r
skip-IsFound t types s found r h v = record {
  below = v.below;
  at_most = (λ n e. omega (arith, v.below, h n e), v.at_most);
  attained = elim v.attained [ inl same ↦ inl same | inr (f, is) ↦ inr (f, inr is) ];
}

take-IsFound :
    (t : String) (types : List String) (s m : ℤ) (found : Bool) (r : ℤ × Bool)
    → lookup t default_service_intervals ≡ some m
    → ltb_ℤ m s ≡ true
    → IsFound types m true r
    → IsFound (t ∷ types) s found r
take-IsFound t types s m found r known shorter v = record {
  below = let less : m ≤ℤ s = ground arith in omega (arith, v.below, less);
  at_most = (λ n e. let same : m ≡ n = known_value t known e in rw same at v.below, v.at_most);
  attained = elim v.attained [
    | inl same ↦ inr (same.1, inl (known ∙ ap some (sym same.0)))
    | inr (f, is) ↦ inr (f, inr is)
  ];
}

shortest_from-IsFound :
    (types : List String) (s : ℤ) (found : Bool)
    → IsFound types s found (shortest_from types s found)
unfolding shortest_from
shortest_from-IsFound [] s found = record {
  below = omega arith;
  at_most = tt;
  attained = inl (refl, refl);
}
shortest_from-IsFound (t ∷ types) s found =
    elim (Option-cases (lookup t default_service_intervals)) [
      | inl unknown ↦
          rw (unknown, shortest_from)
            (skip-IsFound t types s found (shortest_from types s found) (λ n e. absurd (cc))
              (shortest_from-IsFound types s found))
      | inr (m, known) ↦ elim (Bool-cases (ltb_ℤ m s)) [
        | inl shorter ↦
            rw (known, shortest_from, shorter)
              (take-IsFound t types s m found (shortest_from types m true) known shorter
                (shortest_from-IsFound types m true))
        | inr longer ↦
            rw (known, shortest_from, longer)
              (skip-IsFound t types s found (shortest_from types s found)
                (λ n e.
                  let more : s ≤ℤ m = ground arith in
                  let same = known_value t known e in rw same at more)
                (shortest_from-IsFound types s found))
      ]
    ]

picked :
    (types : List String) (r : ℤ × Bool)
    → IsFound types (pos 100_000) false r
    → let d = if r.1 then r.0 else default_interval in
      IsAtMost d types
      × (((d ≡ default_interval) × IsAtMost (pos 100_000) types) ⊎ IsIntervalOf types d)
picked types (s, true) v =
    (v.at_most, elim v.attained [ inl same ↦ absurd (let b = same.1 in cc) | inr (f, is) ↦ inr is ])
picked types (s, false) v = (
  All-map types (λ t h n e. omega (arith, h n e, large v.attained)) v.at_most,
  inl (refl, All-map types (λ t h n e. omega (arith, h n e, large v.attained)) v.at_most),
)
  where
    large :
        ((s ≡ pos 100_000) × (false ≡ false)) ⊎ ((false ≡ true) × IsIntervalOf types s)
        → pos 100_000 ≤ℤ s
    large (inl same) = omega (arith, ap pos_part same.0, ap neg_part same.0)
    large (inr (f, is)) = absurd (cc)

shortest_interval_lem :
    (types : List String)
    → IsAtMost (shortest_interval types) types
      × (((shortest_interval types ≡ default_interval) × IsAtMost (pos 100_000) types)
          ⊎ IsIntervalOf types (shortest_interval types))
unfolding shortest_interval
shortest_interval_lem [] = (tt, inl (refl, tt))
shortest_interval_lem (t ∷ types) =
    if_refused
      (λ d.
        IsAtMost d (t ∷ types)
        × (((d ≡ default_interval) × IsAtMost (pos 100_000) (t ∷ types))
            ⊎ IsIntervalOf (t ∷ types) d))
      (length (t ∷ types) == 0) default_interval (ground arith)
      (picked (t ∷ types) (shortest_from (t ∷ types) (pos 100_000) false)
        (shortest_from-IsFound (t ∷ types) (pos 100_000) false))

-- Without a positive interval of the request, the service interval of the types is no longer than
-- that of any type that the table of the defaults knows, and it is the interval of one of the types,
-- so it is the shortest of theirs; only where every type that the table knows has 100000 km or more
-- may it be 10000 km instead. A positive interval of the request is taken as it is.
pub service_interval_lem :
    (types : List String) (custom : Option ℤ)
    → let r = get_service_interval_for_types types custom in
      ((c : ℤ) → custom ≡ some c → ltb_ℤ (pos 0) c ≡ true → r ≡ c)
      × (((c : ℤ) → custom ≡ some c → ltb_ℤ (pos 0) c ≡ false)
          → IsAtMost r types
            × (((r ≡ default_interval) × IsAtMost (pos 100_000) types) ⊎ IsIntervalOf types r))
unfolding get_service_interval_for_types
service_interval_lem types none = (λ c e h. absurd (cc), λ h. shortest_interval_lem types)
service_interval_lem types (some c) = elim (Bool-cases (ltb_ℤ (pos 0) c)) [
  | inl positive ↦ rw positive (λ d e h. cc, λ h. absurd (let b = h c refl in cc))
  | inr other ↦ rw other (
    λ d e h. absurd (let same : c ≡ d = cc in let b = rw same at other in cc),
    λ h. shortest_interval_lem types,
  )
]
