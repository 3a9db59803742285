-- ===== src/Users/Accounts/Roles.antt =====
-- The permissions of the users over a history of requests to the user service.
use vehicle_telematics.Base.{
  String, ◌≡◌, refl, sym, ap, ◌∙◌, ◌⊎◌, inl, inr, List, [], ◌∷◌, Option, none, some, str_eq,
  Bool-cases, Option-cases,
}
use vehicle_telematics.Base.Time.{Time}
use vehicle_telematics.Base.Results.{Result}
use vehicle_telematics.Users.{User, UserRepository, Bcrypt}
use vehicle_telematics.Users.Accounts.{
  CreateUserRequest, UpdateUserRequest, UserError, get_role_permissions, answer, apply_user_request,
  with_hash, new_user, create_hashed, create_user, email_taken, update_found, update_user,
  delete_found, delete_user, change_user_status, change_found, change_password,
}

pub data UserRequest : Type 0 where
  create : CreateUserRequest → Time → UserRequest
  update : String → UpdateUserRequest → Time → UserRequest
  delete : String → UserRequest
  change_status : String → String → Time → UserRequest
  change_password_of : String → String → String → Time → UserRequest

abbrev pub SameRole : User → User → Type 0
SameRole x u = (x.role ≡ u.role) × (x.permissions ≡ u.permissions)

-- What the service relies on, with `Has a x` for a document `x` of the users' collection: a look-up
-- finds a document, a write leaves none that was not there or has the role and the permissions that
-- were written, and bcrypt and the creation of an id leave the collection alone.
pub record KeepsUsers {A : Type 0} (repo : UserRepository A) (bcrypt : Bcrypt A)
    (Has : A → User → Type 0) : Type 0 where
  pub find_by_id-Has : (id : String) (a : A) (u : User) → repo.find_by_id id a ≡ some u → Has a u
  pub new_object_id-Has : (a : A) (x : User) → Has (repo.new_object_id a).0 x → Has a x
  pub generate-Has :
      (password : String) (a : A) (x : User)
      → Has (bcrypt.generate_from_password password a).0 x
      → Has a x
  pub create-Has :
      (u : User) (a : A) (x : User) → Has (repo.create u a).0 x → Has a x ⊎ SameRole x u
  pub update-Has :
      (id : String) (u : User) (a : A) (x : User)
      → Has (repo.update id u a).0 x
      → Has a x ⊎ SameRole x u
  pub delete-Has : (id : String) (a : A) (x : User) → Has (repo.delete id a).0 x → Has a x

-- The permissions are those of the role.
abbrev pub IsGranted : User → Type 0
IsGranted u = u.permissions ≡ get_role_permissions u.role

same_permissions : (x u : User) → SameRole x u → IsGranted u → IsGranted x
same_permissions x u (roles, permissions) h = permissions ∙ h ∙ ap get_role_permissions (sym roles)

apply-IsGranted :
    (req : UpdateUserRequest) (now : Time) (u : User)
    → IsGranted u
    → IsGranted (apply_user_request req now u)
unfolding apply_user_request
apply-IsGranted req now u h = elim (Bool-cases (str_eq req.role "")) [
  | inl same ↦ rw same h
  | inr other ↦ rw other refl
]

answer-state : {A : Type 0} (r : A × Option User) → (answer r).0 ≡ r.0
answer-state (a, none) = refl
answer-state (a, some u) = refl

module _ {A : Type 0} (repo : UserRepository A) (bcrypt : Bcrypt A) where
  unfoldable pub handle_user : UserRequest → A → A
  handle_user (create req now) a = (create_user repo bcrypt req now a).0
  handle_user (update id req now) a = (update_user repo bcrypt id req now a).0
  handle_user (delete id) a = (delete_user repo bcrypt id a).0
  handle_user (change_status id status now) a = (change_user_status repo bcrypt id status now a).0
  handle_user (change_password_of id current new now) a =
      (change_password repo bcrypt id current new now a).0

  unfoldable pub handle_users : List UserRequest → A → A
  handle_users [] a = a
  handle_users (r ∷ rs) a = handle_users rs (handle_user r a)

module _ {A : Type 0} (repo : UserRepository A) (bcrypt : Bcrypt A) (Has : A → User → Type 0)
    (keeps : KeepsUsers repo bcrypt Has) where
  abbrev pub AllGranted : A → Type 0
  AllGranted a = (x : User) → Has a x → IsGranted x

  -- Writing a user whose permissions are those of the role.
  update-AllGranted :
      (id : String) (u : User) (a : A)
      → AllGranted a
      → IsGranted u
      → AllGranted (answer (repo.update id u a)).0
  update-AllGranted id u a all h x there =
      elim (keeps.update-Has id u a x (rw (← answer-state (repo.update id u a)) there)) [
        | inl old ↦ all x old
        | inr same ↦ same_permissions x u same h
      ]

  create_hashed-AllGranted :
      (req : CreateUserRequest) (now : Time) (a : A) (hash : String)
      → AllGranted a
      → AllGranted (create_hashed repo bcrypt req now a hash).0
  unfolding create_hashed new_user
  create_hashed-AllGranted req now a hash all x there =
      let (a', id) = repo.new_object_id a in
      let u = new_user repo bcrypt req now hash id in
      elim (keeps.create-Has u a' x (rw (← answer-state (repo.create u a')) there)) [
        | inl old ↦ all x (keeps.new_object_id-Has a x old)
        | inr same ↦ same_permissions x u same refl
      ]

  with_hash-AllGranted :
      (r : A × Option String) (next : A → String → A × Result UserError User)
      → AllGranted r.0
      → ((a : A) (hash : String) → AllGranted a → AllGranted (next a hash).0)
      → AllGranted (with_hash r next).0
  with_hash-AllGranted (a, none) next all h = all
  with_hash-AllGranted (a, some hash) next all h = h a hash all

  create_user-AllGranted :
      (req : CreateUserRequest) (now : Time) (a : A)
      → AllGranted a
      → AllGranted (create_user repo bcrypt req now a).0
  unfolding create_user
  create_user-AllGranted req now a all =
      elim (Option-cases (repo.find_by_username req.username a)) [
        | inr (u, e) ↦ rw (create_user, e) all
        | inl e1 ↦ elim (Option-cases (repo.find_by_email req.email a)) [
          | inr (u, e) ↦ rw (create_user, e1, e) all
          | inl e2 ↦
              rw (create_user, e1, e2)
                (with_hash-AllGranted (bcrypt.generate_from_password req.password a)
                  (create_hashed repo bcrypt req now)
                  (λ x there. all x (keeps.generate-Has req.password a x there))
                  (create_hashed-AllGranted req now))
        ]
      ]

  update_user-AllGranted :
      (id : String) (req : UpdateUserRequest) (now : Time) (a : A)
      → AllGranted a
      → AllGranted (update_user repo bcrypt id req now a).0
  unfolding update_user update_found
  update_user-AllGranted id req now a all = elim (Option-cases (repo.find_by_id id a)) [
    | inl e ↦ rw (update_user, e) all
    | inr (u, e) ↦ elim (Bool-cases (email_taken repo bcrypt id req a)) [
      | inl taken ↦ rw (update_user, e, update_found, taken) all
      | inr free ↦
          rw (update_user, e, update_found, free)
            (update-AllGranted id (apply_user_request req now u) a all
              (apply-IsGranted req now u (all u (keeps.find_by_id-Has id a u e))))
    ]
  ]

  delete_user-AllGranted :
      (id : String) (a : A) → AllGranted a → AllGranted (delete_user repo bcrypt id a).0
  unfolding delete_user delete_found
  delete_user-AllGranted id a all = elim (Option-cases (repo.find_by_id id a)) [
    | inl e ↦ rw (delete_user, e) all
    | inr (u, e) ↦ elim (Bool-cases (str_eq u.role "admin")) [
      | inl admin ↦ rw (delete_user, e, delete_found, admin) all
      | inr other ↦
          rw (delete_user, e, delete_found, other)
            (λ x there. all x (keeps.delete-Has id a x there))
    ]
  ]

  change_user_status-AllGranted :
      (id status : String) (now : Time) (a : A)
      → AllGranted a
      → AllGranted (change_user_status repo bcrypt id status now a).0
  unfolding change_user_status
  change_user_status-AllGranted id status now a all = elim (Option-cases (repo.find_by_id id a)) [
    | inl e ↦ rw (change_user_status, e) all
    | inr (u, e) ↦
        rw (change_user_status, e)
          (update-AllGranted id (record u { status = status; updated_at = now }) a all
            (all u (keeps.find_by_id-Has id a u e)))
  ]

  change_password-AllGranted :
      (id current new : String) (now : Time) (a : A)
      → AllGranted a
      → AllGranted (change_password repo bcrypt id current new now a).0
  unfolding change_password change_found
  change_password-AllGranted id current new now a all = elim (Option-cases (repo.find_by_id id a)) [
    | inl e ↦ rw (change_password, e) all
    | inr (u, e) ↦ elim (Bool-cases (bcrypt.compare_hash_and_password u.password current)) [
      | inr wrong ↦ rw (change_password, e, change_found, wrong) all
      | inl right ↦
          rw (change_password, e, change_found, right)
            (with_hash-AllGranted (bcrypt.generate_from_password new a)
              (λ a' hash.
                answer (repo.update id (record u { password = hash; updated_at = now }) a'))
              (λ x there. all x (keeps.generate-Has new a x there))
              (λ a' hash all'.
                update-AllGranted id (record u { password = hash; updated_at = now }) a' all'
                  (all u (keeps.find_by_id-Has id a u e))))
    ]
  ]

  handle_user-AllGranted :
      (r : UserRequest) (a : A) → AllGranted a → AllGranted (handle_user repo bcrypt r a)
  unfolding handle_user
  handle_user-AllGranted (create req now) a all = create_user-AllGranted req now a all
  handle_user-AllGranted (update id req now) a all = update_user-AllGranted id req now a all
  handle_user-AllGranted (delete id) a all = delete_user-AllGranted id a all
  handle_user-AllGranted (change_status id status now) a all =
      change_user_status-AllGranted id status now a all
  handle_user-AllGranted (change_password_of id current new now) a all =
      change_password-AllGranted id current new now a all

  -- When every user of the collection has the permissions of the role, this is so for every user of
  -- the collection after any requests to create, update and delete users and to change their status
  -- and passwords, refused or not.
  pub handle_users-IsGranted :
      (rs : List UserRequest) (a : A)
      → AllGranted a
      → (x : User) → Has (handle_users repo bcrypt rs a) x
      → IsGranted x
  unfolding handle_users
  handle_users-IsGranted [] a all = all
  handle_users-IsGranted (r ∷ rs) a all =
      handle_users-IsGranted rs (handle_user repo bcrypt r a) (handle_user-AllGranted r a all)
