-- ===== src/Ratelimit/Config/Lookup.antt =====
-- How the limiters look up the category of an endpoint: both call `GetEndpointKey(endpoint, "")`.
use vehicle_telematics.Base.{
  String, ◌≡◌, refl, sym, ◌∙◌, ◌≢◌, false, List, [], ◌∷◌, none, some, lookup, str_eq, eq_iff, All,
  Bool-cases, inl, inr, arith,
}
use Prim.Native.String.{◌++◌ as ◌+++◌, count}
use text.Mathlib.Text.{starts_with}
use text.Mathlib.TextEquality.{starts_with_iff}
use text.Mathlib.TextLemmas.{append_assoc, append_inj, nil-append}
use vehicle_telematics.Ratelimit.Config.{
  matches_pattern, endpoint_map, first_match, get_endpoint_key,
}

-- Texts that begin with different letters.
apart :
    (a rest e : String)
    → count a ≡ count ":"
    → str_eq a ":" ≡ false
    → (t : String) → (a +++ rest) +++ t ≢ ":" +++ e
apart a rest e one other t h =
    let first = (append_inj (sym (append_assoc a rest t) ∙ h) one).0 in
    absurd (let same = (eq_iff a ":").1 first in cc)

not_equal :
    (a rest e : String)
    → count a ≡ count ":"
    → str_eq a ":" ≡ false
    → str_eq (a +++ rest) (":" +++ e) ≡ false
not_equal a rest e one other = elim (Bool-cases (str_eq (a +++ rest) (":" +++ e))) [
  | inr differ ↦ differ
  | inl same ↦
      let first = (append_inj ((eq_iff (a +++ rest) (":" +++ e)).0 same) one).0 in
      absurd (let letters = (eq_iff a ":").1 first in cc)
]

not_prefix :
    (a rest e : String)
    → count a ≡ count ":"
    → str_eq a ":" ≡ false
    → starts_with (":" +++ e) (a +++ rest) ≡ false
not_prefix a rest e one other = elim (Bool-cases (starts_with (":" +++ e) (a +++ rest))) [
  | inr differs ↦ differs
  | inl begins ↦
      let (t, is) = (starts_with_iff (":" +++ e) (a +++ rest)).0 begins in
      absurd (apart a rest e one other t is)
]

-- The key `k` is not the pattern, and does not match it.
abbrev Misses : String → String → Type 0
Misses k pattern = (str_eq pattern k ≡ false) × (matches_pattern k pattern ≡ false)

plain :
    (a rest e : String)
    → count a ≡ count ":"
    → str_eq a ":" ≡ false
    → (str_eq (a +++ rest) (":" +++ e) ≡ false) × (str_eq (":" +++ e) (a +++ rest) ≡ false)
plain a rest e one other =
    let differ = not_equal a rest e one other in
    (differ, ground (arith, eq_iff (a +++ rest) (":" +++ e), eq_iff (":" +++ e) (a +++ rest)))

none_fits :
    (k : String) (entries : List (String × String))
    → All (λ (x : String × String). Misses k x.0) entries
    → (lookup k entries ≡ none) × (first_match k entries ≡ "default")
unfolding lookup first_match
none_fits k [] h = (refl, refl)
none_fits k ((pattern, category) ∷ entries) h =
    let rest = none_fits k entries h.1 in (rw (h.0.0) rest.0, rw (h.0.1) rest.1)

endpoint_map-Misses :
    (e : String) → All (λ (x : String × String). Misses (":" +++ e) x.0) endpoint_map
unfolding endpoint_map matches_pattern
endpoint_map-Misses e = (
  plain "P" "OST:/api/v1/auth/login" e refl refl,
  (
    plain "P" "OST:/api/v1/auth/logout" e refl refl,
    (
      plain "P" "OST:/api/v1/auth/register" e refl refl,
      (
        plain "G" "ET:/api/v1/auth/profile" e refl refl,
        (
          plain "G" "ET:/api/v1/vehicles" e refl refl,
          (
            plain "P" "OST:/api/v1/vehicles" e refl refl,
            (
              (
                not_equal "P" "ATCH:/api/v1/vehicles/*" e refl refl,
                not_prefix "P" "ATCH:/api/v1/vehicles/" e refl refl,
              ),
              (
                (
                  not_equal "D" "ELETE:/api/v1/vehicles/*" e refl refl,
                  not_prefix "D" "ELETE:/api/v1/vehicles/" e refl refl,
                ),
                (
                  plain "G" "ET:/api/v1/alerts" e refl refl,
                  (
                    plain "P" "OST:/api/v1/alerts" e refl refl,
                    (
                      plain "G" "ET:/api/v1/users" e refl refl,
                      (
                        plain "P" "OST:/api/v1/users" e refl refl,
                        (
                          (
                            not_equal "P" "ATCH:/api/v1/users/*" e refl refl,
                            not_prefix "P" "ATCH:/api/v1/users/" e refl refl,
                          ),
                          (
                            (
                              not_equal "D" "ELETE:/api/v1/users/*" e refl refl,
                              not_prefix "D" "ELETE:/api/v1/users/" e refl refl,
                            ),
                            (
                              plain "G" "ET:/api/v1/maintenance" e refl refl,
                              (
                                plain "P" "OST:/api/v1/maintenance" e refl refl,
                                (plain "G" "ET:/api/v1/health" e refl refl, tt),
                              ),
                            ),
                          ),
                        ),
                      ),
                    ),
                  ),
                ),
              ),
            ),
          ),
        ),
      ),
    ),
  ),
)

-- An endpoint that is looked up without a method has the category `default`, whatever it is.
pub get_endpoint_key-default : (endpoint : String) → get_endpoint_key endpoint "" ≡ "default"
unfolding get_endpoint_key
get_endpoint_key-default endpoint = by_key ("" +++ ":" +++ endpoint) (nil-append (":" +++ endpoint))
  where
    by_key :
        (k : String)
        → k ≡ ":" +++ endpoint
        → elim (lookup k endpoint_map) [
          | some category ↦ category
          | none ↦ first_match k endpoint_map
        ]
          ≡ "default"
    by_key k is =
        let (missing, unmatched) =
          none_fits k endpoint_map (rw is (endpoint_map-Misses endpoint)) in
        rw missing unmatched
