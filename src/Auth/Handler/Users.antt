-- ===== src/Auth/Handler/Users.antt =====
-- internal/modules/auth/handler.go: the administration of users.
use golang_base.Base.{
  Bool, true, false, not, Option, none, some, List, [], ◌∷◌, ◌++◌, Text, codes, contains, map, pos,
  if◌then◌else◌,
}
use golang_base.Domain.{Instant, User}
use golang_base.Domain.Errors.{is_user_exists, is_user_not_found, Result, ok, err}
use golang_base.Pkg.Pagination.{parse_pagination_params}
use golang_base.Pkg.Response.{
  ok_response, created, bad_request, bad_request_validation, not_found, forbidden, internal_error,
  paginated_response,
}
use golang_base.Pkg.Validator.{validate_struct}
use golang_base.Auth.Dto.{UserFilter, UserResponse, to_user_response_with_permissions}
use golang_base.Auth.Repository.{get_all_roles}
use golang_base.Auth.Service.{has_permission, get_computed_permissions}
use golang_base.Auth.Service.Accounts
use golang_base.Auth.Handler.{
  App, Handler, user_view, users_view, note, PageQuery, CreateUserRequest, UpdateUserRequest,
  default_roles, nonempty, permissions_or_empty,
}

-- `strings.Join(names, ", ")`
unfoldable pub join : List Text → Text
join [] = []
join (name ∷ []) = name
join (name ∷ other ∷ names) = name ++ (codes ", " ++ join (other ∷ names))

-- Whether each of the roles is one of the names.
unfoldable pub all_among : List Text → List Text → Bool
all_among names [] = true
all_among names (r ∷ rs) = elim (contains r names) [ true ↦ all_among names rs | false ↦ false ]

-- The names of the table of roles; a failed read gives none.
unfoldable pub role_names_or_nil : {S R : Type 0} → App S R → S → List Text
role_names_or_nil app s = elim (get_all_roles app.db s) [ err e ↦ [] | ok names ↦ names ]

-- Without any names every role is taken.
unfoldable pub roles_are_valid : List Text → List Text → Bool
roles_are_valid [] rs = true
roles_are_valid (name ∷ names) rs = all_among (name ∷ names) rs

module _ {S R : Type 0} (app : App S R) where
  -- A user with the computed permissions.
  unfoldable pub user_content : Instant → S → User → UserResponse
  user_content now s u =
      to_user_response_with_permissions app.format (some u)
        (permissions_or_empty app.db now u.id u.roles s)

  unfoldable pub list_users : Instant → Option UserFilter → PageQuery → Handler S R
  list_users now none q w = (bad_request (codes "invalid query parameters"), w)
  list_users now (some filter) q w =
      let p = parse_pagination_params q.page q.limit in
      elim (Accounts.list_users app.db (record filter { limit = p.limit; offset = p.offset })
        w.store) [
          | err e ↦ (internal_error (codes "internal server error"), w)
          | ok (us, total) ↦ (
            paginated_response app.ceil_quotient (users_view (map (user_content now w.store) us))
                p.page p.limit (pos total),
            w,
          )
        ]

  unfoldable pub get_user : Instant → Text → Handler S R
  get_user now id w = elim (Accounts.get_user app.db id w.store) [
    | err e ↦ (not_found (codes "user not found"), w)
    | ok u ↦ elim (get_computed_permissions app.db now id u.roles w.store) [
      | err e ↦ (internal_error (codes "internal server error"), w)
      | ok ps ↦
          (ok_response (user_view (to_user_response_with_permissions app.format (some u) ps)), w)
    ]
  ]

  unfoldable pub update_user : Instant → Text → Text → Option UpdateUserRequest → Handler S R
  update_user now actor_id id none w = (bad_request (codes "invalid request body"), w)
  update_user now actor_id id (some req) w =
      let (changed, s') =
        Accounts.update_user app.db app.integrity_violation now id (nonempty req.name) req.roles
          req.is_active (actor_id ∷ []) w.store in
      let w' = record w { store = s' } in
      elim changed [
        | ok u ↦ (ok_response (user_view (user_content now s' u)), w')
        | err e ↦
            if is_user_not_found e
            then (not_found (codes "user not found"), w')
            else (internal_error (codes "internal server error"), w')
      ]

  unfoldable pub delete_user : Text → Handler S R
  delete_user id w = elim (Accounts.get_user app.db id w.store) [
    | err e ↦ (not_found (codes "user not found"), w)
    | ok u ↦
        let (gone, s') = Accounts.delete_user app.db id w.store in
        let w' = record w { store = s' } in
        elim gone [
          | err e ↦ (internal_error (codes "internal server error"), w')
          | ok done ↦ (ok_response (note (codes "User deactivated successfully")), w')
        ]
  ]

  -- The part of CreateUser after the validation.
  unfoldable pub create_valid_user : Instant → Result Text → Text → CreateUserRequest → Handler S R
  create_valid_user now uuid actor_id req w =
      let names = role_names_or_nil app w.store in
      let rs = default_roles req.roles in
      elim (roles_are_valid names rs) [
        | false ↦ (bad_request (codes "invalid role: must be one of " ++ join names), w)
        | true ↦
            let (made, s') =
              Accounts.create_user app.db app.integrity_violation app.bcrypt now uuid
                (record { email = req.email; password = req.password; name = req.name; roles = rs })
                (actor_id ∷ []) w.store in
            let w' = record w { store = s' } in
            elim made [
              | ok u ↦ (created (user_view (user_content now s' u)), w')
              | err e ↦
                  if is_user_exists e
                  then (bad_request (codes "user already exists"), w')
                  else (internal_error (codes "internal server error"), w')
            ]
      ]

  unfoldable pub create_user : Instant → Result Text → Text → Option CreateUserRequest → Handler S R
  create_user now uuid actor_id body w =
      if not (has_permission app.db now actor_id (codes "user.create") w.store)
      then (forbidden (codes "missing permission: user.create"), w)
      else elim body [
        | none ↦ (bad_request (codes "invalid request body"), w)
        | some req ↦ elim (validate_struct (app.create_errors req)) [
          | e ∷ es ↦ (bad_request_validation (e ∷ es), w)
          | [] ↦ create_valid_user now uuid actor_id req w
        ]
      ]
