-- ===== src/Users/Tokens/Chain.antt =====
-- Refreshing a token again and again.
use vehicle_telematics.Base.{String, ◌+◌, ◌*◌, ◌≤◌, ◌<◌, ◌≡◌, List, [], ◌∷◌, Option, none, some}
use vehicle_telematics.Base.Time.{Time, Duration, hour}
use vehicle_telematics.Base.Results.{ok, failed}
use vehicle_telematics.Users.Tokens.{Jwt, JwtUtil, Claims, refresh_token}
use vehicle_telematics.Users.Tokens.Refresh.{ParsesSigned}

-- Each time is at most 24 hours after the one before it.
abbrev pub IsDaily : Time → List Time → Type 0
IsDaily now [] = Unit
IsDaily now (t ∷ times) = (now ≤ t) × (t ≤ now + 24 * hour) × IsDaily t times

abbrev pub last : Time → List Time → Time
last now [] = now
last now (t ∷ times) = last t times

-- A token is refreshed at each of the times, and the answer is used the next time.
unfoldable pub refresh_all : {T : Type 0} → Jwt T → JwtUtil → T → List Time → Option T
refresh_all jwt j token [] = some token
refresh_all jwt j token (t ∷ times) = elim (refresh_token jwt j token t) [
  | none ↦ none
  | some (failed _) ↦ none
  | some (ok next) ↦ refresh_all jwt j next times
]

module _ {T : Type 0} (jwt : Jwt T) (lawful : ParsesSigned jwt) (j : JwtUtil) (d : Duration)
    (user_id role : String) where
  -- The token is signed for the user in the role, and its time has begun and not ended.
  abbrev pub Serves : T → Time → Type 0
  Serves token now =
      (c : Claims) × (e : Time) × (n : Time) × (jwt.signed_string j.secret_key c ≡ some token)
      × (c.user_id ≡ user_id)
      × (c.role ≡ role)
      × (c.expires_at ≡ some e)
      × (c.not_before ≡ some n)
      × (n ≤ now)
      × (now < e)

  abbrev Signs : Type 0
  Signs = (c : Claims) → (token : T) × (jwt.signed_string j.secret_key c ≡ some token)
