-- ===== src/Users/Login.antt =====
-- internal/services/auth.go, but for its struct and the log lines. Each handler reads the clock once, as `now`.
use vehicle_telematics.Base.{
  String, ◌+◌, ◌*◌, Bool, true, false, not, ◌||◌, List, [], ◌∷◌, Option, none, some, if◌then◌else◌,
  ltb, str_eq,
}
use vehicle_telematics.Base.Time.{Time, hour}
use vehicle_telematics.Base.Results.{Result, ok, failed}
use vehicle_telematics.Users.{User, AuthUser, UserRepository, Bcrypt}
use vehicle_telematics.Users.Tokens.{Jwt, JwtUtil, generate_token, validate_token, refresh_token}

pub data AuthError : Type 0 where
  invalid_credentials account_not_active no_token user_not_found token_refused not_generated
        not_hashed not_stored not_sent not_processed invalid_reset_token :
      AuthError

-- The random source, as the hex text of 32 bytes, and the mail service.
pub record Post (A : Type 0) : Type 0 where
  pub random_token : A → A × Option String
  pub send_password_reset_email : String → String → A → A × Bool

pub record AuthService (T A : Type 0) : Type 0 where
  pub user_repo : UserRepository A
  pub bcrypt : Bcrypt A
  pub jwt : Jwt T
  pub jwt_util : JwtUtil
  pub email_service : Post A

unfoldable pub auth_user : User → AuthUser
auth_user user = record {
  id = user.id;
  username = user.username;
  email = user.email;
  first_name = user.first_name;
  last_name = user.last_name;
  role = user.role;
  permissions = user.permissions;
}

-- The checks that `RefreshToken`, `GetUserProfile` and `ValidateToken` share.
unfoldable pub active_user : Option User → Result AuthError User
active_user none = failed user_not_found
active_user (some user) =
    if not (str_eq user.status "active") then failed account_not_active else ok user

module _ {T A : Type 0} (s : AuthService T A) where
  unfoldable pub token_for : User → Time → Option T
  token_for user now = generate_token s.jwt s.jwt_util user.id user.email user.role now

  unfoldable pub log_in : User → Time → A → A × Result AuthError (AuthUser × T)
  log_in user now a =
      let (a', _) = s.user_repo.update user.id (record user { last_login = some now }) a in
      elim (token_for user now) [
        | none ↦ (a', failed not_generated)
        | some token ↦ (a', ok (auth_user user, token))
      ]

  unfoldable pub check_login : String → Time → Option User → A → A × Result AuthError (AuthUser × T)
  check_login password now none a = (a, failed invalid_credentials)
  check_login password now (some user) a =
      let done = log_in user now a in
      if not (str_eq user.status "active")
      then (a, failed account_not_active)
      else if not (s.bcrypt.compare_hash_and_password user.password password)
      then (a, failed invalid_credentials)
      else done

  unfoldable pub login : String → String → Time → A → A × Result AuthError (AuthUser × T)
  login email password now a = check_login password now (s.user_repo.find_by_email email a) a

  unfoldable pub refresh_by_id : String → Time → A → Result AuthError T
  refresh_by_id user_id now a = elim (active_user (s.user_repo.find_by_id user_id a)) [
    | failed e ↦ failed e
    | ok user ↦ elim (token_for user now) [ none ↦ failed not_generated | some token ↦ ok token ]
  ]

  -- A result `none` is the panic of `refresh_token`.
  unfoldable pub refresh_token_from_string : T → Time → Option (Result AuthError T)
  refresh_token_from_string token now = elim (refresh_token s.jwt s.jwt_util token now) [
    | none ↦ none
    | some (failed _) ↦ some (failed token_refused)
    | some (ok new) ↦ some (ok new)
  ]

  unfoldable pub get_user_profile : String → A → Result AuthError AuthUser
  get_user_profile user_id a = elim (active_user (s.user_repo.find_by_id user_id a)) [
    | failed e ↦ failed e
    | ok user ↦ ok (auth_user user)
  ]

  unfoldable pub validate_user_token : T → Time → A → Result AuthError AuthUser
  validate_user_token token now a = elim (validate_token s.jwt s.jwt_util token now) [
    | none ↦ failed no_token
    | some claims ↦ get_user_profile claims.user_id a
  ]

  unfoldable pub hash_password : String → A → A × Option String
  hash_password password a = s.bcrypt.generate_from_password password a

  unfoldable pub send_token : User → String → A × Bool → A × Result AuthError (Unit {0})
  send_token user token (a, false) = (a, failed not_stored)
  send_token user token (a, true) =
      let (a', sent) = s.email_service.send_password_reset_email user.email token a in
      (a', if sent then ok tt else failed not_sent)

  unfoldable pub store_token :
      User → String → String → Time → A × Option String → A × Result AuthError (Unit {0})
  store_token user email token now (a, none) = (a, failed not_hashed)
  store_token user email token now (a, some hash) =
      send_token user token (s.user_repo.update_password_reset_token email hash (now + 24 * hour) a)

  unfoldable pub make_token :
      User → String → Time → A × Option String → A × Result AuthError (Unit {0})
  make_token user email now (a, none) = (a, failed not_generated)
  make_token user email now (a, some token) =
      store_token user email token now (s.bcrypt.generate_from_password token a)

  unfoldable pub forgot_password : String → Time → A → A × Result AuthError (Unit {0})
  forgot_password email now a = elim (s.user_repo.find_by_email email a) [
    | none ↦ (a, ok tt)
    | some user ↦ make_token user email now (s.email_service.random_token a)
  ]

  -- The tests of the loop of `ResetPassword`.
  unfoldable pub token_fits : String → Time → User → Bool
  token_fits token now user = elim user.password_reset_expiry [
    | none ↦ false
    | some expiry ↦
        if str_eq user.password_reset_token "" || ltb expiry now
        then false
        else s.bcrypt.compare_hash_and_password user.password_reset_token token
  ]

  unfoldable pub find_match : String → Time → List User → Option User
  find_match token now [] = none
  find_match token now (user ∷ users) =
      if token_fits token now user then some user else find_match token now users

  unfoldable pub clear_token : User → A × Option User → A × Result AuthError (Unit {0})
  clear_token user (a, none) = (a, failed not_stored)
  clear_token user (a, some _) = ((s.user_repo.clear_password_reset_token user.id a).0, ok tt)

  unfoldable pub set_password : User → Time → A × Option String → A × Result AuthError (Unit {0})
  set_password user now (a, none) = (a, failed not_hashed)
  set_password user now (a, some hash) =
      clear_token user
        (s.user_repo.update user.id (record user { password = hash; updated_at = now }) a)

  unfoldable pub reset_password : String → String → Time → A → A × Result AuthError (Unit {0})
  reset_password token new_password now a = elim (s.user_repo.find_all a) [
    | none ↦ (a, failed not_processed)
    | some users ↦ elim (find_match token now users) [
      | none ↦ (a, failed invalid_reset_token)
      | some user ↦ set_password user now (s.bcrypt.generate_from_password new_password a)
    ]
  ]
