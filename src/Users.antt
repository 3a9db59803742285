-- ===== src/Users.antt =====
-- internal/models/user.go, and what the services for users and for the login call: the repository of
-- the users, bcrypt, the random source and the mail, all on one state A of the world.
pub mod Tokens
pub mod Accounts
pub mod Login
use vehicle_telematics.Base.{String, Bool, List, Option}
use vehicle_telematics.Base.Time.{Time}

pub record User : Type 0 where
  pub id : String
  pub username : String
  pub email : String
  pub first_name : String
  pub last_name : String
  pub password : String
  pub role : String
  pub status : String
  pub permissions : List String
  pub password_reset_token : String
  pub password_reset_expiry : Option Time
  pub last_login : Option Time
  pub created_at : Time
  pub updated_at : Time

pub record AuthUser : Type 0 where
  pub id : String
  pub username : String
  pub email : String
  pub first_name : String
  pub last_name : String
  pub role : String
  pub permissions : List String

-- A look-up answers `none`, and a change `false`, where the source's error is not nil.
pub record UserRepository (A : Type 0) : Type 0 where
  pub new_object_id : A → A × String
  pub find_by_id : String → A → Option User
  pub find_by_username : String → A → Option User
  pub find_by_email : String → A → Option User
  pub find_all : A → Option (List User)
  pub create : User → A → A × Option User
  pub update : String → User → A → A × Option User
  pub delete : String → A → A × Bool
  pub update_password_reset_token : String → String → Time → A → A × Bool
  pub clear_password_reset_token : String → A → A × Bool

-- bcrypt: the salt comes from the world.
pub record Bcrypt (A : Type 0) : Type 0 where
  pub generate_from_password : String → A → A × Option String
  pub compare_hash_and_password : String → String → Bool
