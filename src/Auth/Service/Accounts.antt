-- ===== src/Auth/Service/Accounts.antt =====
-- internal/modules/auth/service.go: registration, login and the administration of users and roles.
-- bcrypt is a parameter; the instant of a call stands for each of its readings of the clock.
pub mod Tokens
pub mod Users
pub mod Rows
use golang_base.Base.{
  ℕ, Bool, true, false, Option, none, some, List, [], ◌∷◌, Text, ◌==◌, if◌then◌else◌,
}
use golang_base.Domain.{Instant, User, Role}
use golang_base.Domain.Errors.{
  PgError, Error, user_exists, user_not_found, invalid_credentials, Result, ok, err,
}
use golang_base.Infra.{Database}
use golang_base.Infra.Monad.{Act, ◌>>=◌, ◌>>◌, give, read, map_err}
use golang_base.Pkg.Db.{map_db_error}
use golang_base.Pkg.Jwt.{
  Jwt, JwtLibrary, generate_access_token, generate_refresh_token, validate_token,
}
use golang_base.Auth.Repository
use golang_base.Auth.Repository.Queries
use golang_base.Auth.Dto.{UserFilter}

-- `generate` is GenerateFromPassword at the default cost, with the salt of the call; `compare` is
-- whether CompareHashAndPassword returns no error.
pub record Bcrypt : Type 0 where
  pub generate : Text → Result Text
  pub compare : Text → Text → Bool

-- The fields that a registration is given.
pub record NewUser : Type 0 where
  pub email : Text
  pub password : Text
  pub name : Text
  pub roles : List Text

-- The access token, the refresh token and the user of a login.
pub record Session : Type 0 where
  pub access_token : Text
  pub refresh_token : Text
  pub user : User

-- An empty password gives no hash.
unfoldable pub hash_password : Bcrypt → Text → Result (Option Text)
hash_password bcrypt [] = ok none
hash_password bcrypt (c ∷ cs) = elim (bcrypt.generate (c ∷ cs)) [
  | err e ↦ err e
  | ok hashed ↦ ok (some hashed)
]

unfoldable pub new_user : Instant → NewUser → Option Text → User
new_user now u hashed = record {
  id = [];
  name = u.name;
  email = u.email;
  password = hashed;
  roles = u.roles;
  is_active = true;
  created_at = now;
  updated_at = now;
}

-- The fields of UpdateUser that are set.
unfoldable pub change_user : Instant → Option Text → List Text → Option Bool → User → User
change_user now name roles is_active user = record {
  id = user.id;
  name = elim name [ none ↦ user.name | some n ↦ n ];
  email = user.email;
  password = user.password;
  roles = elim roles [ [] ↦ user.roles | r ∷ rs ↦ r ∷ rs ];
  is_active = elim is_active [ none ↦ user.is_active | some b ↦ b ];
  created_at = user.created_at;
  updated_at = now;
}

module _ {S : Type 0} (db : Database S) where
  unfoldable pub get_user : Text → S → Result User
  get_user id s = elim (Repository.get_user_by_id db id s) [
    | err e ↦ err user_not_found
    | ok user ↦ ok user
  ]

  unfoldable pub delete_user : Text → Act S (Unit {0})
  delete_user id = Repository.delete_user db id

  -- The page of users and the count of all that match.
  unfoldable pub list_users : UserFilter → S → Result (List User × ℕ)
  list_users filter s = elim (Queries.list_users db filter s) [
    | err e ↦ err e
    | ok users ↦ elim (Queries.count_users db filter s) [
      | err e ↦ err e
      | ok count ↦ ok (users, count)
    ]
  ]

module _ {S : Type 0} (db : Database S) (integrity_violation : PgError → Bool) where
  unfoldable pub create_user : Bcrypt → Instant → Result Text → NewUser → List Text → Act S User
  create_user bcrypt now uuid u assigned_by s = elim (Repository.get_user_by_email db u.email s) [
    | ok existing ↦ (err user_exists, s)
    | err e ↦ elim (hash_password bcrypt u.password) [
      | err failed ↦ (err failed, s)
      | ok hashed ↦
          map_err (map_db_error integrity_violation)
            (Repository.create_user db uuid (new_user now u hashed) assigned_by) s
    ]
  ]

  -- Register has the body of CreateUser, without an actor.
  unfoldable pub register : Bcrypt → Instant → Result Text → NewUser → Act S User
  register bcrypt now uuid u = create_user bcrypt now uuid u []

  unfoldable pub update_user :
      Instant → Text → Option Text → List Text → Option Bool → List Text → Act S User
  update_user now id name roles is_active assigned_by s = elim (Repository.get_user_by_id db id s) [
    | err e ↦ (err user_not_found, s)
    | ok user ↦
        (map_err (map_db_error integrity_violation)
              (Repository.update_user db (change_user now name roles is_active user) assigned_by)
            >> give (ok (change_user now name roles is_active user)))
          s
  ]

  unfoldable pub create_role : Instant → Text → Text → Act S Role
  create_role now role description = do
    map_err (map_db_error integrity_violation) (
        Repository.create_role db
          (record { role = role; description = description; created_at = now }))
    give (ok (record { role = role; description = description; created_at = now }))

module _ (lib : JwtLibrary) (jwt : Jwt) where
  -- The two tokens of a login.
  unfoldable pub open_session : Instant → User → Result Session
  open_session now user = elim (generate_access_token lib jwt user.id now) [
    | err e ↦ err e
    | ok access ↦ elim (generate_refresh_token lib jwt user.id now) [
      | err e ↦ err e
      | ok refresh ↦ ok (record { access_token = access; refresh_token = refresh; user = user })
    ]
  ]

  unfoldable pub login :
      {S : Type 0} → Database S → Bcrypt → Instant → Text → Text → S → Result Session
  login db bcrypt now email password s = elim (Repository.get_user_by_email db email s) [
    | err e ↦ err invalid_credentials
    | ok user ↦ elim user.password [
      | none ↦ err invalid_credentials
      | some hash ↦ elim (bcrypt.compare hash password) [
        | false ↦ err invalid_credentials
        | true ↦ open_session now user
      ]
    ]
  ]

  unfoldable pub refresh_token : Instant → Text → Result Text
  refresh_token now token = elim (validate_token lib jwt token now) [
    | err e ↦ err invalid_credentials
    | ok claims ↦ generate_access_token lib jwt claims.user_id now
  ]
