-- ===== src/Auth/Service/Accounts/Rows.antt =====
-- internal/modules/auth/service.go: the administration of users and roles leaves the two permission
-- tables alone.
use golang_base.Base.{
  Bool, List, [], ◌∷◌, Text, Option, ◌==◌, ◌≡◌, refl, sym, ◌∙◌, ◌⊎◌, inl, inr, arith, if◌then◌else◌,
}
use mathlib.Core.Path.{subst}
use golang_base.Domain.{Instant, User, Role}
use golang_base.Domain.Errors.{PgError, Result, ok, err, Result-cases}
use golang_base.Infra.{Database}
use golang_base.Infra.Monad.{Act, ◌>>=◌, ◌>>◌, give, map_err, ignore}
use golang_base.Infra.Laws.{SameRows, KeepsRows, AccountFrameLaws}
use golang_base.Pkg.Db.{map_db_error}
use golang_base.Auth.Repository
use golang_base.Auth.Repository.{assign_roles}
use golang_base.Auth.Service.Accounts.{
  Bcrypt, NewUser, hash_password, new_user, change_user, create_user, update_user, create_role,
}

module _ {S : Type 0} (db : Database S) where
  SameRows-trans : (s t u : S) → SameRows db s t → SameRows db t u → SameRows db s u
  SameRows-trans s t u a b = (λ role. b.0 role ∙ a.0 role, λ id. b.1 id ∙ a.1 id)

  give-KeepsRows : {A : Type 0} (r : Result A) → KeepsRows db (give r)
  give-KeepsRows r s = (λ role. refl, λ id. refl)

  bind-KeepsRows :
      {A B : Type 0} (m : Act S A) (f : A → Act S B)
      → KeepsRows db m
      → ((a : A) → KeepsRows db (f a))
      → KeepsRows db (m >>= f)
  bind-KeepsRows {A} {B} m f first then_ s = elim (Result-cases (m s).0) [
    | inl (a, e) ↦
        let step : (m >>= f) s ≡ f a (m s).1 = ground arith in
        subst (λ x. SameRows db s x.1) (sym step)
          (SameRows-trans s (m s).1 (f a (m s).1).1 (first s) (then_ a (m s).1))
    | inr (e, failed) ↦
        let step : (m >>= f) s ≡ (err e, (m s).1) = ground arith in
        subst (λ x. SameRows db s x.1) (sym step) (first s)
  ]

  then-KeepsRows :
      {A B : Type 0} (m : Act S A) (k : Act S B)
      → KeepsRows db m
      → KeepsRows db k
      → KeepsRows db (m >> k)
  then-KeepsRows m k first last = bind-KeepsRows m (λ a. k) first (λ a. last)

  roles-cases : (rs : List Text) → (rs ≡ []) ⊎ ((r : Text) × (rest : List Text) × (rs ≡ r ∷ rest))
  roles-cases [] = inl refl
  roles-cases (r ∷ rest) = inr (r, rest, refl)

  module _ (laws : AccountFrameLaws db) where
    assign_roles-KeepsRows : (user : User) (by : List Text) → KeepsRows db (assign_roles db user by)
    unfolding assign_roles
    assign_roles-KeepsRows user by s = elim (roles-cases user.roles) [
      | inl empty ↦ rw (empty, assign_roles) (give-KeepsRows (ok tt) s)
      | inr (role, roles, e) ↦ rw (e, assign_roles) (laws.insert_user_roles _ s)
    ]

    insert_account-KeepsRows :
        (uuid : Result Text) (user : User) (by : List Text)
        → KeepsRows db (Repository.create_user db uuid user by)
    unfolding Repository.create_user
    insert_account-KeepsRows uuid user by =
        let named : Text → User = λ id. record user { id = id } in
        let last : Text → Act S User = λ id. give (ok (named id)) in
        let roles : Text → Act S User = λ id. assign_roles db (named id) by >> last id in
        let insert : Text → Act S User = λ id. db.insert_user (named id) >> roles id in
        bind-KeepsRows (give (if user.id == [] then uuid else ok user.id)) insert
          (give-KeepsRows (if user.id == [] then uuid else ok user.id))
          (λ id.
            then-KeepsRows (db.insert_user (named id)) (roles id) (laws.insert_user (named id)) (
              then-KeepsRows (assign_roles db (named id) by) (last id)
                (assign_roles-KeepsRows (named id) by) (give-KeepsRows (ok (named id)))))

    change_account-KeepsRows :
        (user : User) (by : List Text) → KeepsRows db (Repository.update_user db user by)
    unfolding Repository.update_user
    change_account-KeepsRows user by =
        let roles : Act S (Unit {0}) =
          ignore (db.delete_user_roles user.id) >> assign_roles db user by in
        then-KeepsRows (db.update_user user) roles (laws.update_user user) (
          then-KeepsRows (ignore (db.delete_user_roles user.id)) (assign_roles db user by)
            (laws.delete_user_roles user.id) (assign_roles-KeepsRows user by))

    module _ (integrity_violation : PgError → Bool) where
      pub create_user-KeepsRows :
          (bcrypt : Bcrypt) (now : Instant) (uuid : Result Text) (u : NewUser) (by : List Text)
          → KeepsRows db (create_user db integrity_violation bcrypt now uuid u by)
      unfolding create_user
      create_user-KeepsRows bcrypt now uuid u by s =
          elim (Result-cases (Repository.get_user_by_email db u.email s)) [
            | inl (user, found) ↦ rw (found, create_user) (give-KeepsRows (ok tt) s)
            | inr (e, missing) ↦ elim (Result-cases (hash_password bcrypt u.password)) [
              | inr (e', failed) ↦ rw (missing, failed, create_user) (give-KeepsRows (ok tt) s)
              | inl (hashed, done) ↦
                  rw (missing, done, create_user)
                    (insert_account-KeepsRows uuid (new_user now u hashed) by s)
            ]
          ]

      pub update_user-KeepsRows :
          (now : Instant) (id : Text) (name : Option Text) (roles : List Text)
          (is_active : Option Bool) (by : List Text)
          → KeepsRows db (update_user db integrity_violation now id name roles is_active by)
      unfolding update_user
      update_user-KeepsRows now id name roles is_active by s =
          elim (Result-cases (Repository.get_user_by_id db id s)) [
            | inr (e, missing) ↦ rw (missing, update_user) (give-KeepsRows (ok tt) s)
            | inl (user, found) ↦
                let changed = change_user now name roles is_active user in
                rw (found, update_user)
                  (then-KeepsRows
                    (map_err (map_db_error integrity_violation)
                      (Repository.update_user db changed by))
                    (give (ok changed)) (change_account-KeepsRows changed by)
                    (give-KeepsRows (ok changed)) s)
          ]

      pub create_role-KeepsRows :
          (now : Instant) (role description : Text)
          → KeepsRows db (create_role db integrity_violation now role description)
      unfolding create_role Repository.create_role
      create_role-KeepsRows now role description =
          let made : Role = record { role = role; description = description; created_at = now } in
          then-KeepsRows (map_err (map_db_error integrity_violation) (db.insert_role_ignore made))
            (give (ok made)) (laws.insert_role_ignore made) (give-KeepsRows (ok made))
