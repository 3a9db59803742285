-- ===== src/Users/Tokens.antt =====
-- pkg/jwt/jwt.go. The package golang-jwt is a parameter. A result `none` is a panic: the source reads
-- the time of `claims.ExpiresAt` although that may be nil.
pub mod Refresh
pub mod Chain
use vehicle_telematics.Base.{
  String, ◌*◌, Bool, true, Option, none, some, if◌then◌else◌, ltb, str_eq,
}
use vehicle_telematics.Base.Int.{ℤ, pos, ◌+ℤ◌, pos_part}
use vehicle_telematics.Base.Time.{Time, hour, since}
use vehicle_telematics.Base.Results.{Result, ok, failed}

pub record JwtUtil : Type 0 where
  pub secret_key : String
  pub expiry : ℤ

pub record Claims : Type 0 where
  pub user_id : String
  pub email : String
  pub role : String
  pub expires_at : Option Time
  pub issued_at : Option Time
  pub not_before : Option Time
  pub issuer : String
  pub subject : String

-- The kinds of signing methods that the source tells apart.
pub data SigningMethod : Type 0 where
  hmac other : SigningMethod

-- golang-jwt, with T for the texts of its tokens: a numeric date, a signature with HS256, and the two ways to parse, with the function
-- that gives the key for a method. The first parser compares the dates of the claims with the time.
pub record Jwt (T : Type 0) : Type 0 where
  pub new_numeric_date : Time → Time
  pub signed_string : String → Claims → Option T
  pub parse_with_claims : T → (SigningMethod → Option String) → Time → Option Claims
  pub parse_without_validation : T → (SigningMethod → Option String) → Option Claims

pub data TokenError : Type 0 where
  invalid_token beyond_grace_period not_signed : TokenError

-- The global utility is made once, from the environment.
unfoldable pub new_jwt_util : (String → Option ℤ) → (String → String) → Option JwtUtil → JwtUtil
new_jwt_util parse_duration getenv (some global) = global
new_jwt_util parse_duration getenv none =
    let secret = getenv "JWT_SECRET" in
    record {
      secret_key =
          if str_eq secret "" then "default-secret-key-change-this-in-production" else secret;
      expiry = elim (parse_duration (getenv "JWT_EXPIRY")) [
        | none ↦ pos (24 * hour)
        | some expiry ↦ expiry
      ];
    }

abbrev pub add_duration : Time → ℤ → Time
add_duration t d = pos_part (pos t +ℤ d)

-- The function that the source gives to the parsers.
unfoldable pub key_for : JwtUtil → SigningMethod → Option String
key_for j hmac = some j.secret_key
key_for j other = none

module _ {T : Type 0} (jwt : Jwt T) (j : JwtUtil) where
  unfoldable pub claims_for : String → String → String → Time → Claims
  claims_for user_id email role now = record {
    user_id = user_id;
    email = email;
    role = role;
    expires_at = some (jwt.new_numeric_date (add_duration now j.expiry));
    issued_at = some (jwt.new_numeric_date now);
    not_before = some (jwt.new_numeric_date now);
    issuer = "fleet-management-system";
    subject = user_id;
  }

  unfoldable pub generate_token : String → String → String → Time → Option T
  generate_token user_id email role now =
      jwt.signed_string j.secret_key (claims_for user_id email role now)

  unfoldable pub validate_token : T → Time → Option Claims
  validate_token token now = jwt.parse_with_claims token (key_for j) now

  unfoldable pub parse_expired_token : T → Option Claims
  parse_expired_token token = jwt.parse_without_validation token (key_for j)

  -- The last line of `RefreshToken`.
  unfoldable pub renew : Claims → Time → Result TokenError T
  renew claims now = elim (generate_token claims.user_id claims.email claims.role now) [
    | none ↦ failed not_signed
    | some token ↦ ok token
  ]

  unfoldable pub refresh_expired : Option Claims → Time → Option (Result TokenError T)
  refresh_expired none now = some (failed invalid_token)
  refresh_expired (some claims) now = elim claims.expires_at [
    | none ↦ none
    | some expires_at ↦
        if ltb (24 * hour) (since now expires_at)
        then some (failed beyond_grace_period)
        else some (renew claims now)
  ]

  unfoldable pub refresh_valid : T → Claims → Time → Option (Result TokenError T)
  refresh_valid token claims now = elim claims.expires_at [
    | none ↦ none
    | some expires_at ↦
        if ltb hour (since expires_at now) then some (ok token) else some (renew claims now)
  ]

  unfoldable pub refresh_token : T → Time → Option (Result TokenError T)
  refresh_token token now = elim (validate_token token now) [
    | none ↦ refresh_expired (parse_expired_token token) now
    | some claims ↦ refresh_valid token claims now
  ]
