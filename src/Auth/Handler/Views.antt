-- ===== src/Auth/Handler/Views.antt =====
-- internal/modules/auth/handler.go: the permissions that Login and Me show, and what CreateUser
-- asks for before it creates an account.
use golang_base.Base.{
  true, false, Option, none, some, List, [], ◌∷◌, Text, codes, ◌==◌, eq_of_test, contains, ◌≡◌,
  refl, ◌≢◌, ◌⊎◌, inl, inr, arith, Bool-cases,
}
use golang_base.Domain.{Instant, role_super_admin, User}
use golang_base.Domain.Errors.{Result, ok}
use golang_base.Infra.{World}
use golang_base.Pkg.Response.{ok_response}
use golang_base.Pkg.Validator.{FieldError, validate_struct}
use golang_base.Auth.Dto.{UserResponse, to_user_response, to_user_response_with_permissions}
use golang_base.Auth.Repository
use golang_base.Auth.Service.{has_permission}
use golang_base.Auth.Service.Access.{computed-has_permission}
use golang_base.Auth.Service.Accounts
use golang_base.Auth.Service.Accounts.{Session, open_session}
use golang_base.Auth.Handler.{
  App, user_view, CreateUserRequest, default_roles, permissions_or_empty,
}
use golang_base.Auth.Handler.Sessions
use golang_base.Auth.Handler.Users
use golang_base.Auth.Handler.Users.{all_among, roles_are_valid, role_names_or_nil}

module _ {S R : Type 0} (app : App S R) (now : Instant) where
  shown-has_permission :
      (user : User) (s : S)
      → Repository.get_user_by_id app.db user.id s ≡ ok user
      → contains role_super_admin user.roles ≡ false
      → (p : Text)
      → contains p (permissions_or_empty app.db now user.id user.roles s)
        ≡ has_permission app.db now user.id p s
  unfolding permissions_or_empty
  shown-has_permission user s found plain p =
      let (perms, computed, sorted, same) =
        computed-has_permission app.db now user.id s user found plain in
      rw (computed, permissions_or_empty) (same p)

  -- Me answers a known user who is no super admin with 200 and exactly the permissions that
  -- HasPermission grants.
  pub me-has_permission :
      (user : User) (w : World S R)
      → Repository.get_user_by_id app.db user.id w.store ≡ ok user
      → contains role_super_admin user.roles ≡ false
      → (u : UserResponse) × ((Sessions.me app now user.id w).0 ≡ ok_response (user_view u))
        × (u.id ≡ user.id)
        × ((p : Text) → contains p u.permissions ≡ has_permission app.db now user.id p w.store)
  unfolding Sessions.me Accounts.get_user to_user_response_with_permissions to_user_response
  me-has_permission user w found plain = (
    to_user_response_with_permissions app.format (some user)
        (permissions_or_empty app.db now user.id user.roles w.store),
    rw (found, Accounts.get_user, Sessions.me) refl,
    refl,
    shown-has_permission user w.store found plain,
  )

errors-cases :
    (xs : List FieldError)
    → (xs ≡ []) ⊎ ((x : FieldError) × (rest : List FieldError) × (xs ≡ x ∷ rest))
errors-cases [] = inl refl
errors-cases (x ∷ rest) = inr (x, rest, refl)

all_among_sound :
    (names rs : List Text)
    → all_among names rs ≡ true
    → (r : Text) → contains r rs ≡ true
    → contains r names ≡ true
unfolding all_among contains
all_among_sound names [] h r listed = cc
all_among_sound names (x ∷ rs) h r listed = elim (Bool-cases (contains x names)) [
  | inr missing ↦ absurd (ground arith)
  | inl there ↦ elim (Bool-cases (x == r)) [
    | inl same ↦ rw (← eq_of_test x r same) there
    | inr other ↦ all_among_sound names rs (ground arith) r (ground arith)
  ]
]

roles_are_valid_sound :
    (names rs : List Text)
    → names ≢ []
    → roles_are_valid names rs ≡ true
    → (r : Text) → contains r rs ≡ true
    → contains r names ≡ true
unfolding roles_are_valid
roles_are_valid_sound [] rs h valid = absurd (h refl)
roles_are_valid_sound (n ∷ names) rs h valid = all_among_sound (n ∷ names) rs valid

module _ {S R : Type 0} (app : App S R) (now : Instant) (uuid : Result Text) where
  -- If the table of roles has rows that can be read and CreateUser changes a table, HasPermission
  -- grants the actor user.create, the request has bound and has passed the validation, and each of
  -- the roles it asks for, or the default role, is in the table of roles.
  pub create_user-changes :
      (actor : Text) (body : Option CreateUserRequest) (w : World S R)
      → role_names_or_nil app w.store ≢ []
      → (Users.create_user app now uuid actor body w).1.store ≢ w.store
      → (has_permission app.db now actor (codes "user.create") w.store ≡ true)
        × ((req : CreateUserRequest) × (body ≡ some req)
            × (app.create_errors req ≡ [])
            × ((r : Text)
                → contains r (default_roles req.roles) ≡ true
                → contains r (role_names_or_nil app w.store) ≡ true))
  unfolding Users.create_user Users.create_valid_user validate_struct
  create_user-changes actor none w named changed = absurd (changed (ground arith))
  create_user-changes actor (some req) w named changed =
      elim (Bool-cases (has_permission app.db now actor (codes "user.create") w.store)) [
        | inr denied ↦ absurd (changed (rw (denied, Users.create_user) refl))
        | inl allowed ↦ elim (errors-cases (app.create_errors req)) [
          | inr (e, es, wrong) ↦ absurd (changed (rw (allowed, wrong, Users.create_user) refl))
          | inl right ↦
              elim (Bool-cases
                (roles_are_valid (role_names_or_nil app w.store) (default_roles req.roles))) [
                  | inr bad ↦ absurd (
                      changed (
                        rw (allowed, right, Users.create_user)
                          (rw (bad, Users.create_valid_user) refl)))
                  | inl good ↦ (
                    allowed,
                    (
                      req,
                      refl,
                      right,
                      roles_are_valid_sound (role_names_or_nil app w.store)
                          (default_roles req.roles) named good,
                    ),
                  )
                ]
        ]
      ]
