-- ===== src/Auth/Service/Accounts/Users.antt =====
-- internal/modules/auth/service.go: what a successful CreateUser or Register has made.
use golang_base.Base.{ℕ, Bool, true, Option, List, [], ◌∷◌, Text, ◌==◌, ◌≡◌, refl, arith, inl, inr}
use golang_base.Domain.{Instant, User}
use golang_base.Domain.Errors.{PgError, Error, Result, ok, err, Result-cases}
use golang_base.Infra.{Database}
use golang_base.Pkg.Jwt.{Jwt, JwtLibrary}
use golang_base.Auth.Repository
use golang_base.Auth.Repository.{assign_roles}
use golang_base.Auth.Service.Accounts.{
  Bcrypt, NewUser, hash_password, new_user, create_user, open_session, login,
}

module _ {S : Type 0} (db : Database S) where
  -- A user that the repository creates comes back with a new identifier and its other fields.
  repository_create_user_lem :
      (uuid : Result Text) (user made : User) (assigned_by : List Text) (s : S)
      → user.id ≡ []
      → (Repository.create_user db uuid user assigned_by s).0 ≡ ok made
      → (id : Text) × (uuid ≡ ok id)
        × (made ≡ record user { id = id })
        × ((db.insert_user made s).0 ≡ ok tt)
  unfolding Repository.create_user ◌==◌
  repository_create_user_lem uuid user made assigned_by s new h = elim (Result-cases uuid) [
    | inr (e, failed) ↦ absurd (ground arith)
    | inl (id, given) ↦ elim (Result-cases (db.insert_user (record user { id = id }) s).0) [
      | inr (e, failed) ↦ absurd (ground arith)
      | inl (u, inserted) ↦
          let s' = (db.insert_user (record user { id = id }) s).1 in
          elim (Result-cases (assign_roles db (record user { id = id }) assigned_by s').0) [
            | inr (e, failed) ↦ absurd (ground arith)
            | inl (v, assigned) ↦
                let same : made ≡ record user { id = id } = ground arith in
                (id, given, same, rw same inserted)
          ]
    ]
  ]

  module _ (integrity_violation : PgError → Bool) (bcrypt : Bcrypt) where
    -- If CreateUser succeeds, no user was found under the address, the password was hashed, or
    -- there was none, and the user that was inserted and comes back is active, with the fields that
    -- were given, that hash and the fresh identifier.
    pub create_user_lem :
        (now : Instant) (uuid : Result Text) (u : NewUser) (assigned_by : List Text) (s : S)
        (user : User)
        → (create_user db integrity_violation bcrypt now uuid u assigned_by s).0 ≡ ok user
        → (e : Error) × (hashed : Option Text) × (id : Text) × (Repository.get_user_by_email db
              u.email s
            ≡ err e)
          × (hash_password bcrypt u.password ≡ ok hashed)
          × (uuid ≡ ok id)
          × (user ≡ record (new_user now u hashed) { id = id })
          × ((db.insert_user user s).0 ≡ ok tt)
    unfolding create_user new_user
    create_user_lem now uuid u assigned_by s user h =
        elim (Result-cases (Repository.get_user_by_email db u.email s)) [
          | inl (existing, found) ↦ absurd (ground arith)
          | inr (e, absent) ↦ elim (Result-cases (hash_password bcrypt u.password)) [
            | inr (f, failed) ↦ absurd (ground arith)
            | inl (hashed, made) ↦
                let (id, given, same, inserted) =
                  repository_create_user_lem uuid (new_user now u hashed) user assigned_by s refl
                    (ground arith) in
                (e, hashed, id, absent, made, given, same, inserted)
          ]
        ]

    -- If bcrypt accepts a password for its own hash: in any state in which the repository finds a
    -- user under the address with the password hash that CreateUser stored, a login with the same
    -- password, which is not empty, gets past the credentials and opens the user's session.
    pub login-create_user :
        (lib : JwtLibrary) (j : Jwt)
        → ((p h : Text) → bcrypt.generate p ≡ ok h → bcrypt.compare h p ≡ true)
        → (now later : Instant) (uuid : Result Text) (u : NewUser) (assigned_by : List Text)
          (s s' : S) (user found : User) (c : ℕ) (cs : Text)
        → u.password ≡ c ∷ cs
        → (create_user db integrity_violation bcrypt now uuid u assigned_by s).0 ≡ ok user
        → Repository.get_user_by_email db u.email s' ≡ ok found
        → found.password ≡ user.password
        → login lib j db bcrypt later u.email u.password s' ≡ open_session lib j later found
    unfolding login hash_password new_user
    login-create_user lib j law now later uuid u assigned_by s s' user found c cs given h read
          kept =
        let (e, hashed, id, absent, made, fresh, same, inserted) =
          create_user_lem now uuid u assigned_by s user h in
        elim (Result-cases (bcrypt.generate (c ∷ cs))) [
          | inr (f, failed) ↦ absurd (ground arith)
          | inl (hash, done) ↦ ground (arith, law (c ∷ cs) hash done)
        ]
