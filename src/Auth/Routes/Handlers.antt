-- ===== src/Auth/Routes/Handlers.antt =====
-- internal/modules/auth/handler.go: what each handler leaves of the agreement between the cached
-- rows and the tables.
use golang_base.Base.{
  ℕ, Option, none, some, List, [], ◌∷◌, Text, codes, ◌≡◌, refl, sym, ◌⊎◌, inl, inr, arith,
  Bool-cases,
}
use mathlib.Core.Path.{subst}
use golang_base.Base.Space.{trim_space}
use golang_base.Domain.{Instant}
use golang_base.Pkg.Validator.{validate_struct}
use golang_base.Auth.Service.{has_permission}
use golang_base.Domain.Errors.{Result, ok}
use golang_base.Infra.{World}
use golang_base.Infra.Laws.{AccountFrameLaws, SameRows}
use golang_base.Pkg.Response.{ErrorDetail}
use golang_base.Auth.Repository
use golang_base.Auth.Module.{auth_repository}
use golang_base.Auth.Dto.{UserFilter}
use golang_base.Auth.Service.Accounts
use golang_base.Auth.Service.Accounts.{NewUser}
use golang_base.Auth.Service.Accounts.Rows.{
  create_user-KeepsRows, update_user-KeepsRows, create_role-KeepsRows,
}
use golang_base.Auth.Service.Grants.Invalidation.{frame-IsCoherent}
use golang_base.Auth.Handler.{
  App, nonempty, default_roles, AuditLogQuery, PageQuery, CreateUserRequest, UpdateUserRequest,
  RoleRequest,
}
use golang_base.Auth.Handler.Users
use golang_base.Auth.Handler.Roles
use golang_base.Auth.Handler.Permissions
use golang_base.Middleware.Permission.Coherence.{IsCoherent}

List-cases : (xs : Text) → (xs ≡ []) ⊎ ((x : ℕ) × (rest : Text) × (xs ≡ x ∷ rest))
List-cases [] = inl refl
List-cases (x ∷ rest) = inr (x, rest, refl)

errors-cases :
    (xs : List ErrorDetail)
    → (xs ≡ []) ⊎ ((x : ErrorDetail) × (rest : List ErrorDetail) × (xs ≡ x ∷ rest))
errors-cases [] = inl refl
errors-cases (x ∷ rest) = inr (x, rest, refl)

-- The handlers that only read.
module _ {S R : Type 0} (app : App S R) (now : Instant) (w : World S R) where
  pub list_users-snd :
      (filter : Option UserFilter) (q : PageQuery) → (Users.list_users app now filter q w).1 ≡ w
  unfolding Users.list_users
  list_users-snd none q = refl
  list_users-snd (some filter) q = ground arith

  pub get_user-snd : (id : Text) → (Users.get_user app now id w).1 ≡ w
  unfolding Users.get_user
  get_user-snd id = ground arith

  pub show_user_permissions-snd :
      (id : Text) → (Permissions.show_user_permissions app now id w).1 ≡ w
  unfolding Permissions.show_user_permissions
  show_user_permissions-snd id = ground arith

  pub show_role_permissions-snd : (role : Text) → (Roles.show_role_permissions app now role w).1 ≡ w
  unfolding Roles.show_role_permissions
  show_role_permissions-snd role = ground arith

  pub query_permission_changes-snd :
      (query : Option AuditLogQuery) (q : PageQuery)
      → (Permissions.query_permission_changes app query q w).1 ≡ w
  unfolding Permissions.query_permission_changes
  query_permission_changes-snd none q = refl
  query_permission_changes-snd (some query) q = ground arith

module _ {S R : Type 0} (app : App S R) where
  -- The cached rows agree with the tables.
  abbrev pub Coherent : World S R → Type 0
  Coherent w = IsCoherent app.redis app.codec (auth_repository app.db) w

  -- No DEL fails.
  abbrev pub DelWorks : Type 0
  DelWorks = (k : Text) (r : R) → (app.redis.del k r).0 ≡ ok tt

  -- The second world is the first, or has another store with the same permission rows.
  abbrev Alike : World S R → World S R → Type 0
  Alike w w' = (w' ≡ w) ⊎ ((s' : S) × (w' ≡ record w { store = s' }) × SameRows app.db w.store s')

  Alike-Coherent : (w w' : World S R) → Coherent w → Alike w w' → Coherent w'
  unfolding auth_repository Repository.get_role_permissions Repository.get_user_permissions
  Alike-Coherent w w' h (inl same) = subst Coherent (sym same) h
  Alike-Coherent w w' h (inr (s', same, rows)) =
      subst Coherent (sym same)
        (frame-IsCoherent app.redis app.codec (auth_repository app.db) w s' h rows.0 rows.1)

  module _ (laws : AccountFrameLaws app.db) (now : Instant) where
    create_role-Alike :
        (body : Option RoleRequest) (w : World S R) → Alike w (Roles.create_role app now body w).1
    unfolding Roles.create_role
    create_role-Alike none w = inl refl
    create_role-Alike (some req) w = elim (List-cases (trim_space req.role)) [
      | inl empty ↦ inl (rw (empty, Roles.create_role) refl)
      | inr (c, cs, e) ↦
          let (made, s') =
            Accounts.create_role app.db app.integrity_violation now (c ∷ cs) req.description
              w.store in
          inr (
            s',
            rw (e, Roles.create_role) (ground arith),
            create_role-KeepsRows app.db laws app.integrity_violation now (c ∷ cs) req.description
                w.store,
          )
    ]

    update_user-Alike :
        (actor id : Text) (body : Option UpdateUserRequest) (w : World S R)
        → Alike w (Users.update_user app now actor id body w).1
    unfolding Users.update_user
    update_user-Alike actor id none w = inl refl
    update_user-Alike actor id (some req) w = inr (
      (Accounts.update_user app.db app.integrity_violation now id (nonempty req.name) req.roles
          req.is_active (actor ∷ []) w.store).1,
      ground arith,
      update_user-KeepsRows app.db laws app.integrity_violation now id (nonempty req.name) req.roles
          req.is_active (actor ∷ []) w.store,
    )

    create_valid_user-Alike :
        (uuid : Result Text) (actor : Text) (req : CreateUserRequest) (w : World S R)
        → Alike w (Users.create_valid_user app now uuid actor req w).1
    unfolding Users.create_valid_user
    create_valid_user-Alike uuid actor req w =
        elim (Bool-cases
          (Users.roles_are_valid (Users.role_names_or_nil app w.store) (default_roles req.roles))) [
            | inr bad ↦ inl (rw (bad, Users.create_valid_user) refl)
            | inl good ↦
                let u : NewUser = record {
                  email = req.email;
                  password = req.password;
                  name = req.name;
                  roles = default_roles req.roles;
                } in
                inr (
                  (Accounts.create_user app.db app.integrity_violation app.bcrypt now uuid u
                      (actor ∷ []) w.store).1,
                  rw (good, Users.create_valid_user) (ground arith),
                  create_user-KeepsRows app.db laws app.integrity_violation app.bcrypt now uuid u
                      (actor ∷ []) w.store,
                )
          ]

    create_user-Alike :
        (uuid : Result Text) (actor : Text) (body : Option CreateUserRequest) (w : World S R)
        → Alike w (Users.create_user app now uuid actor body w).1
    unfolding Users.create_user
    create_user-Alike uuid actor none w = inl (ground arith)
    create_user-Alike uuid actor (some req) w =
        elim (Bool-cases (has_permission app.db now actor (codes "user.create") w.store)) [
          | inr denied ↦ inl (rw (denied, Users.create_user) refl)
          | inl allowed ↦ elim (errors-cases (validate_struct (app.create_errors req))) [
            | inr (e, es, wrong) ↦ inl (rw (allowed, wrong, Users.create_user) refl)
            | inl right ↦
                let step : Users.create_user app now uuid actor (some req) w
                    ≡ Users.create_valid_user app now uuid actor req w =
                  rw (allowed, right, Users.create_user) refl in
                subst (λ x. Alike w x.1) (sym step) (create_valid_user-Alike uuid actor req w)
          ]
        ]

    pub create_role-Coherent :
        (body : Option RoleRequest) (w : World S R)
        → Coherent w
        → Coherent (Roles.create_role app now body w).1
    create_role-Coherent body w h =
        Alike-Coherent w (Roles.create_role app now body w).1 h (create_role-Alike body w)

    pub update_user-Coherent :
        (actor id : Text) (body : Option UpdateUserRequest) (w : World S R)
        → Coherent w
        → Coherent (Users.update_user app now actor id body w).1
    update_user-Coherent actor id body w h =
        Alike-Coherent w (Users.update_user app now actor id body w).1 h
          (update_user-Alike actor id body w)

    pub create_user-Coherent :
        (uuid : Result Text) (actor : Text) (body : Option CreateUserRequest) (w : World S R)
        → Coherent w
        → Coherent (Users.create_user app now uuid actor body w).1
    create_user-Coherent uuid actor body w h =
        Alike-Coherent w (Users.create_user app now uuid actor body w).1 h
          (create_user-Alike uuid actor body w)
