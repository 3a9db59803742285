-- ===== src/Users/Tokens/Refresh.antt =====
-- What a refresh of a token does, by the time that is left.
use vehicle_telematics.Base.{String, ◌+◌, ◌≤◌, ◌<◌, ℕ, ◌⊎◌, ◌≡◌, Option, none, some, arith}
use vehicle_telematics.Base.Int.{pos, pos_part, ◌+ℤ◌}
use vehicle_telematics.Base.Time.{Time}
use vehicle_telematics.Users.Tokens.{Jwt, JwtUtil, Claims, SigningMethod, hmac}

-- The dates of claims allow a time: it is before the expiry and not before the start.
abbrev pub Allows : Claims → Time → Type 0
Allows c now =
    (e : Time) × (n : Time) × (c.expires_at ≡ some e)
    × (c.not_before ≡ some n)
    × (n ≤ now)
    × (now < e)

-- What the documentation of golang-jwt says: a signed token can be parsed with its key as long as the
-- function gives that key for HMAC, the parser that validates refuses a token from its expiry on, and a
-- numeric date is the time to the second.
pub record ParsesSigned {T : Type 0} (jwt : Jwt T) : Type 0 where
  pub parsed :
      (key : String) (token : T) (c : Claims) (keys : SigningMethod → Option String)
      → jwt.signed_string key c ≡ some token
      → keys hmac ≡ some key
      → jwt.parse_without_validation token keys ≡ some c
  pub parsed-Allows :
      (key : String) (token : T) (c : Claims) (keys : SigningMethod → Option String) (now : Time)
      → jwt.signed_string key c ≡ some token
      → keys hmac ≡ some key
      → Allows c now
      → jwt.parse_with_claims token keys now ≡ some c
  pub parsed_late :
      (key : String) (token : T) (c : Claims) (keys : SigningMethod → Option String) (now e : Time)
      → jwt.signed_string key c ≡ some token
      → keys hmac ≡ some key
      → c.expires_at ≡ some e
      → e ≤ now
      → jwt.parse_with_claims token keys now ≡ none
  pub numeric_date_le : (t : Time) → jwt.new_numeric_date t ≤ t
  pub numeric_date_lt : (t : Time) → t < jwt.new_numeric_date t + 1_000_000_000

pub lt_or_le : (a b : ℕ) → (a < b) ⊎ (b ≤ a)
lt_or_le a b = ground (arith)

module _ {T : Type 0} (jwt : Jwt T) (j : JwtUtil) where
  -- The claims of the same user, address and role that start now and last for the expiry.
  abbrev pub successor : Claims → Time → Claims
  successor c now = record {
    user_id = c.user_id;
    email = c.email;
    role = c.role;
    expires_at = some (jwt.new_numeric_date (pos_part (pos now +ℤ j.expiry)));
    issued_at = some (jwt.new_numeric_date now);
    not_before = some (jwt.new_numeric_date now);
    issuer = "fleet-management-system";
    subject = c.user_id;
  }
