-- ===== src/Tests/Users.antt =====
-- Tests of the tokens and of the user service, over signatures and a list of users in memory.
use vehicle_telematics.Base.{
  ◌*◌, String, ◌≡◌, refl, ap, ◌⊎◌, inl, inr, Bool, true, false, ◌&&◌, List, [], ◌∷◌, Option, none,
  some, if◌then◌else◌, ltb, leb, str_eq, Bool-cases, arith,
}
use vehicle_telematics.Base.Int.{pos, ◌+ℤ◌}
use vehicle_telematics.Base.Time.{Time, minute, hour}
use vehicle_telematics.Users.{User, UserRepository, Bcrypt}
use vehicle_telematics.Users.Tokens.{Jwt, JwtUtil, Claims, hmac, claims_for, generate_token}
use vehicle_telematics.Users.Accounts.{
  CreateUserRequest, UpdateUserRequest, get_role_permissions, apply_user_request, new_user,
  create_hashed, create_user, email_taken, update_found, update_user, delete_found, delete_user,
  change_user_status, change_found, change_password,
}
use vehicle_telematics.Users.Accounts.Roles.{
  UserRequest, create, update, delete, change_status, change_password_of, SameRole, KeepsUsers,
  IsGranted, handle_user, handle_users, handle_users-IsGranted,
}

-- A token is the claims under the key that signs them, and a date is a time.
abbrev Token : Type 0
Token = String × Claims

abbrev if_key : Option String → Token → Option Claims
if_key none token = none
if_key (some key) (k, c) = if str_eq key k then some c else none

abbrev in_time : Option Time → Option Time → Time → Bool
in_time (some n) (some e) now = leb n now && ltb now e
in_time _ _ now = false

abbrev if_in_time : Option Claims → Time → Option Claims
if_in_time none now = none
if_in_time (some c) now = if in_time c.not_before c.expires_at now then some c else none

abbrev signer : Jwt Token
signer = record {
  new_numeric_date = λ t. t;
  signed_string = λ key c. some (key, c);
  parse_with_claims = λ token keys now. if_in_time (if_key (keys hmac) token) now;
  parse_without_validation = λ token keys. if_key (keys hmac) token;
}

abbrev util : JwtUtil
util = record { secret_key = "key"; expiry = pos (2 * hour) }

abbrev claims : Claims
claims = record {
  user_id = "u1";
  email = "a@b.c";
  role = "viewer";
  expires_at = some (2 * hour);
  issued_at = some 0;
  not_before = some 0;
  issuer = "fleet-management-system";
  subject = "u1";
}

-- The token of time 0 is what the utility makes for the user.
made : generate_token signer util "u1" "a@b.c" "viewer" 0 ≡ some ("key", claims)
unfolding generate_token claims_for ◌+ℤ◌
made = refl

abbrev now : Time
now = 90 * minute

-- On three days, each time a day after the other.
abbrev days : List Time
days = 24 * hour ∷ 48 * hour ∷ 72 * hour ∷ []

abbrev Users : Type 0
Users = List User

abbrev Has : Users → User → Type 0
Has [] x = ⊥
Has (u ∷ users) x = (x ≡ u) ⊎ Has users x

abbrev first : (User → Bool) → Users → Option User
first p [] = none
first p (u ∷ users) = if p u then some u else first p users

abbrev put : String → User → Users → Users
put id new [] = []
put id new (u ∷ users) = if str_eq u.id id then new ∷ users else u ∷ put id new users

abbrev drop : String → Users → Users
drop id [] = []
drop id (u ∷ users) = if str_eq u.id id then users else u ∷ drop id users

abbrev users_repo : UserRepository Users
users_repo = record {
  new_object_id = λ users. (users, "u3");
  find_by_id = λ id users. first (λ u. str_eq u.id id) users;
  find_by_username = λ name users. first (λ u. str_eq u.username name) users;
  find_by_email = λ email users. first (λ u. str_eq u.email email) users;
  find_all = λ users. some users;
  create = λ u users. (u ∷ users, some u);
  update = λ id u users. (put id u users, some u);
  delete = λ id users. (drop id users, true);
  update_password_reset_token = λ email token expiry users. (users, true);
  clear_password_reset_token = λ id users. (users, true);
}

-- A hash is the password itself.
abbrev plain : Bcrypt Users
plain = record {
  generate_from_password = λ password users. (users, some password);
  compare_hash_and_password = str_eq;
}

first-Has : (p : User → Bool) (users : Users) (u : User) → first p users ≡ some u → Has users u
first-Has p [] u e = absurd (cc)
first-Has p (x ∷ users) u e = elim (Bool-cases (p x)) [
  | inl fits ↦ inl (ground arith)
  | inr other ↦ inr (first-Has p users u (ground arith))
]

either : (b : Bool) (xs ys : Users) (x : User) → Has (if b then xs else ys) x → Has xs x ⊎ Has ys x
either true xs ys x there = inl there
either false xs ys x there = inr there

put-Has :
    (id : String) (new : User) (users : Users) (x : User)
    → Has (put id new users) x
    → Has users x ⊎ SameRole x new
put-Has id new [] x there = absurd there
put-Has id new (u ∷ users) x there =
    elim (either (str_eq u.id id) (new ∷ users) (u ∷ put id new users) x there) [
      | inl (inl is) ↦ inr (ap (λ (y : User). y.role) is, ap (λ (y : User). y.permissions) is)
      | inl (inr old) ↦ inl (inr old)
      | inr (inl is) ↦ inl (inl is)
      | inr (inr later) ↦ elim (put-Has id new users x later) [
        | inl old ↦ inl (inr old)
        | inr same ↦ inr same
      ]
    ]

drop-Has : (id : String) (users : Users) (x : User) → Has (drop id users) x → Has users x
drop-Has id [] x there = there
drop-Has id (u ∷ users) x there = elim (either (str_eq u.id id) users (u ∷ drop id users) x there) [
  | inl old ↦ inr old
  | inr (inl is) ↦ inl is
  | inr (inr later) ↦ inr (drop-Has id users x later)
]

create-Has : (u : User) (users : Users) (x : User) → Has (u ∷ users) x → Has users x ⊎ SameRole x u
create-Has u users x (inl is) =
    inr (ap (λ (y : User). y.role) is, ap (λ (y : User). y.permissions) is)
create-Has u users x (inr old) = inl old

users_repo-KeepsUsers : KeepsUsers users_repo plain Has
users_repo-KeepsUsers = record {
  find_by_id-Has = λ id users u e. first-Has (λ y. str_eq y.id id) users u e;
  new_object_id-Has = λ users x there. there;
  generate-Has = λ password users x there. there;
  create-Has = λ u users x there. create-Has u users x there;
  update-Has = λ id u users x there. put-Has id u users x there;
  delete-Has = λ id users x there. drop-Has id users x there;
}

abbrev signed_up : CreateUserRequest
signed_up = record {
  username = "grace";
  email = "g@b.c";
  first_name = "Grace";
  last_name = "H";
  password = "secret";
  role = "operator";
}

abbrev promoted : UpdateUserRequest
promoted = record { email = ""; first_name = ""; last_name = ""; role = "manager"; status = "" }

abbrev ada : User
ada = record {
  id = "u1";
  username = "ada";
  email = "a@b.c";
  first_name = "Ada";
  last_name = "L";
  password = "pw";
  role = "viewer";
  status = "active";
  permissions = "view_vehicles" ∷ "view_alerts" ∷ "view_reports" ∷ [];
  password_reset_token = "";
  password_reset_expiry = none;
  last_login = none;
  created_at = 1;
  updated_at = 1;
}

abbrev user_requests : List UserRequest
user_requests =
    create signed_up 5
    ∷ update "u1" promoted 6
    ∷ change_status "u3" "suspended" 7
    ∷ change_password_of "u1" "pw" "other" 8
    ∷ delete "u3"
    ∷ []

program : Unit {0}
unfolding get_role_permissions apply_user_request new_user create_hashed create_user email_taken
    update_found update_user delete_found delete_user change_user_status change_found
    change_password handle_user handle_users
program = tt

abbrev ada_promoted : User
ada_promoted = record ada {
  role = "manager";
  password = "other";
  permissions = get_role_permissions "manager";
  updated_at = 8;
}

after_requests : handle_users users_repo plain user_requests (ada ∷ []) ≡ ada_promoted ∷ []
unfolding program
after_requests = refl

in_the_end : Has (handle_users users_repo plain user_requests (ada ∷ [])) ada_promoted
in_the_end = rw after_requests (inl refl)

ada-IsGranted : (x : User) → Has (ada ∷ []) x → IsGranted x
unfolding get_role_permissions
ada-IsGranted x (inl is) = rw is refl
ada-IsGranted x (inr away) = absurd away

handle_users-IsGranted_example : ada_promoted.permissions ≡ get_role_permissions "manager"
handle_users-IsGranted_example =
    handle_users-IsGranted users_repo plain Has users_repo-KeepsUsers user_requests (ada ∷ [])
      ada-IsGranted ada_promoted in_the_end
