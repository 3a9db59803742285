-- ===== src/Users/Accounts.antt =====
-- internal/services/user.go. Each handler reads the clock once, as `now`.
pub mod Roles
use vehicle_telematics.Base.{
  String, Bool, true, false, not, ◌&&◌, List, [], ◌∷◌, Option, none, some, if◌then◌else◌, str_eq,
}
use vehicle_telematics.Base.Time.{Time}
use vehicle_telematics.Base.Results.{Result, ok, failed}
use vehicle_telematics.Users.{User, UserRepository, Bcrypt}

pub record CreateUserRequest : Type 0 where
  pub username : String
  pub email : String
  pub first_name : String
  pub last_name : String
  pub password : String
  pub role : String

pub record UpdateUserRequest : Type 0 where
  pub email : String
  pub first_name : String
  pub last_name : String
  pub role : String
  pub status : String

pub data UserError : Type 0 where
  username_exists email_exists not_hashed user_not_found is_admin wrong_password repository_failed :
      UserError

unfoldable pub get_role_permissions : String → List String
get_role_permissions role =
    if str_eq role "admin"
    then "all" ∷ []
    else if str_eq role "manager"
    then "view_vehicles" ∷ "create_vehicles" ∷ "update_vehicles" ∷ "delete_vehicles" ∷ "view_users"
      ∷ "create_users" ∷ "update_users" ∷ "view_alerts" ∷ "resolve_alerts" ∷ "view_reports"
      ∷ "export_reports" ∷ "view_system_settings" ∷ []
    else if str_eq role "operator"
    then "view_vehicles" ∷ "update_vehicles" ∷ "view_alerts" ∷ "resolve_alerts" ∷ "view_reports"
      ∷ []
    else if str_eq role "viewer"
    then "view_vehicles" ∷ "view_alerts" ∷ "view_reports" ∷ []
    else []

abbrev pub answer : {A : Type 0} → A × Option User → A × Result UserError User
answer (a, none) = (a, failed repository_failed)
answer (a, some user) = (a, ok user)

-- "Update fields if provided", the address after its check.
unfoldable pub apply_user_request : UpdateUserRequest → Time → User → User
apply_user_request req now user =
    let keep : String → String → String = λ new old. if str_eq new "" then old else new in
    record user {
      email = keep req.email user.email;
      first_name = keep req.first_name user.first_name;
      last_name = keep req.last_name user.last_name;
      role = keep req.role user.role;
      permissions = if str_eq req.role "" then user.permissions else get_role_permissions req.role;
      status = keep req.status user.status;
      updated_at = now;
    }

-- `GenerateFromPassword` answers with a hash or an error.
abbrev pub with_hash :
    {A : Type 0}
    → A × Option String
    → (A → String → A × Result UserError User)
    → A × Result UserError User
with_hash (a, none) next = (a, failed not_hashed)
with_hash (a, some hash) next = next a hash

module _ {A : Type 0} (repo : UserRepository A) (bcrypt : Bcrypt A) where
  unfoldable pub new_user : CreateUserRequest → Time → String → String → User
  new_user req now hash id = record {
    id = id;
    username = req.username;
    email = req.email;
    first_name = req.first_name;
    last_name = req.last_name;
    password = hash;
    role = req.role;
    status = "active";
    permissions = get_role_permissions req.role;
    password_reset_token = "";
    password_reset_expiry = none;
    last_login = none;
    created_at = now;
    updated_at = now;
  }

  unfoldable pub create_hashed : CreateUserRequest → Time → A → String → A × Result UserError User
  create_hashed req now a hash =
      let (a', id) = repo.new_object_id a in answer (repo.create (new_user req now hash id) a')

  unfoldable pub create_user : CreateUserRequest → Time → A → A × Result UserError User
  create_user req now a = elim (repo.find_by_username req.username a) [
    | some _ ↦ (a, failed username_exists)
    | none ↦ elim (repo.find_by_email req.email a) [
      | some _ ↦ (a, failed email_exists)
      | none ↦ with_hash (bcrypt.generate_from_password req.password a) (create_hashed req now)
    ]
  ]

  -- Another user has the address that the request asks for.
  unfoldable pub email_taken : String → UpdateUserRequest → A → Bool
  email_taken id req a = not (str_eq req.email "") && elim (repo.find_by_email req.email a) [
    | none ↦ false
    | some existing ↦ not (str_eq existing.id id)
  ]

  unfoldable pub update_found :
      String → UpdateUserRequest → Time → Option User → A → A × Result UserError User
  update_found id req now none a = (a, failed user_not_found)
  update_found id req now (some user) a =
      if email_taken id req a
      then (a, failed email_exists)
      else answer (repo.update id (apply_user_request req now user) a)

  unfoldable pub update_user : String → UpdateUserRequest → Time → A → A × Result UserError User
  update_user id req now a = update_found id req now (repo.find_by_id id a) a

  unfoldable pub delete_found : String → Option User → A → A × Result UserError (Unit {0})
  delete_found id none a = (a, failed user_not_found)
  delete_found id (some user) a =
      let (a', deleted) = repo.delete id a in
      if str_eq user.role "admin"
      then (a, failed is_admin)
      else (a', if deleted then ok tt else failed repository_failed)

  unfoldable pub delete_user : String → A → A × Result UserError (Unit {0})
  delete_user id a = delete_found id (repo.find_by_id id a) a

  unfoldable pub change_user_status : String → String → Time → A → A × Result UserError User
  change_user_status id status now a = elim (repo.find_by_id id a) [
    | none ↦ (a, failed user_not_found)
    | some user ↦ answer (repo.update id (record user { status = status; updated_at = now }) a)
  ]

  unfoldable pub change_found :
      String → String → String → Time → Option User → A → A × Result UserError User
  change_found id current new now none a = (a, failed user_not_found)
  change_found id current new now (some user) a =
      let hashed = bcrypt.generate_from_password new a in
      if not (bcrypt.compare_hash_and_password user.password current)
      then (a, failed wrong_password)
      else with_hash hashed (λ a' hash.
        answer (repo.update id (record user { password = hash; updated_at = now }) a'))

  -- The answer of the source is the error alone.
  unfoldable pub change_password : String → String → String → Time → A → A × Result UserError User
  change_password id current new now a = change_found id current new now (repo.find_by_id id a) a
