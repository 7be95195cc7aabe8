-- ===== src/Auth/Handler/Roles.antt =====
-- internal/modules/auth/handler.go: roles and what they permit.
use golang_base.Base.{
  Bool, true, false, Option, none, some, List, [], ◌∷◌, Text, codes, contains, Dict, lookup,
}
use golang_base.Base.Space.{trim_space}
use golang_base.Domain.{Instant}
use golang_base.Domain.Errors.{ok, err}
use golang_base.Pkg.Response.{ok_response, created, bad_request, not_found, internal_error}
use golang_base.Auth.Dto.{RolePermissionsResponse, to_role_response}
use golang_base.Auth.Service.{get_role_permissions}
use golang_base.Auth.Service.Accounts
use golang_base.Auth.Service.Grants
use golang_base.Auth.Service.Matrix.{get_all_roles_with_permissions}
use golang_base.Auth.Handler.{
  App, Handler, role_view, roles_view, permissions_view, note, RoleRequest,
}
use golang_base.Auth.Handler.Users.{role_names_or_nil}

-- The test of GetRolePermissions: without any names every role is taken for one.
unfoldable pub is_known_role : List Text → Text → Bool
is_known_role [] role = true
is_known_role (name ∷ names) role = contains role (name ∷ names)

-- The loop of GetAllRoles; a role without permissions gets the empty list.
unfoldable pub roles_with_permissions : List Text → Dict (List Text) → List RolePermissionsResponse
roles_with_permissions [] db_perms = []
roles_with_permissions (role ∷ names) db_perms =
    record {
      role = role;
      permissions = elim (lookup role db_perms) [ none ↦ [] | some perms ↦ perms ];
    }
    ∷ roles_with_permissions names db_perms

module _ {S R : Type 0} (app : App S R) where
  unfoldable pub create_role : Instant → Option RoleRequest → Handler S R
  create_role now none w = (bad_request (codes "invalid request body"), w)
  create_role now (some req) w = elim (trim_space req.role) [
    | [] ↦ (bad_request (codes "role name is required"), w)
    | c ∷ cs ↦
        let (made, s') =
          Accounts.create_role app.db app.integrity_violation now (c ∷ cs) req.description
            w.store in
        let w' = record w { store = s' } in
        elim made [
          | err e ↦ (internal_error (codes "internal server error"), w')
          | ok role ↦ (created (role_view (to_role_response app.format role)), w')
        ]
  ]

  -- The handler GetRolePermissions.
  unfoldable pub show_role_permissions : Instant → Text → Handler S R
  show_role_permissions now role w = elim (is_known_role (role_names_or_nil app w.store) role) [
    | false ↦ (not_found (codes "role not found"), w)
    | true ↦ elim (get_role_permissions app.db now role w.store) [
      | err e ↦ (internal_error (codes "internal server error"), w)
      | ok perms ↦ (ok_response (permissions_view perms), w)
    ]
  ]

  unfoldable pub put_role_permissions : Instant → Text → Option (List Text) → Handler S R
  put_role_permissions now role none w = (bad_request (codes "invalid request body"), w)
  put_role_permissions now role (some permissions) w =
      let (done, w') = Grants.update_role_permissions app.db app.redis now role permissions w in
      elim done [
        | err e ↦ (internal_error (codes "internal server error"), w')
        | ok u ↦ (ok_response (note (codes "permissions updated")), w')
      ]

  -- The handler GetAllRoles: a failed read leaves its part empty.
  unfoldable pub list_roles : Handler S R
  list_roles w =
      let db_perms : Dict (List Text) = elim (get_all_roles_with_permissions app.db w.store) [
        | err e ↦ []
        | ok m ↦ m
      ] in
      (
        ok_response (roles_view (roles_with_permissions (role_names_or_nil app w.store) db_perms)),
        w,
      )
