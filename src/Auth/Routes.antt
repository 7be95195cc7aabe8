-- ===== src/Auth/Routes.antt =====
-- internal/modules/auth/handler.go: RegisterRoutes. A request is its route with what the handler
-- binds; a response comes from the two middlewares or from the handler behind them.
pub mod Cases
pub mod Guard
pub mod Handlers
pub mod Changes
pub mod Invariant
use golang_base.Base.{Bool, true, false, Option, some, List, [], ◌∷◌, Text, codes}
use golang_base.Domain.{Instant}
use golang_base.Domain.Errors.{Result}
use golang_base.Infra.{World}
use golang_base.Pkg.Response.{Response, unauthorized, forbidden}
use golang_base.Auth.Dto.{UserFilter}
use golang_base.Auth.Module.{auth_repository}
use golang_base.Auth.Handler.{
  App, Handler, Payload, LoginRequest, CreateUserRequest, UpdateUserRequest, RoleRequest,
  UserPermissionRequest, AuditLogQuery, PageQuery, Extras,
}
use golang_base.Auth.Handler.Sessions
use golang_base.Auth.Handler.Users
use golang_base.Auth.Handler.Roles
use golang_base.Auth.Handler.Permissions
use golang_base.Middleware.Authentication
use golang_base.Middleware.Authentication.{Authentication, auth_middleware}
use golang_base.Middleware.Permission
use golang_base.Middleware.Permission.{Decision, allowed_permissions}

-- The routes, named by method and path. A path parameter is the first argument.
pub data Endpoint : Type 0 where
  post_login : Option LoginRequest → Endpoint
  post_refresh : Option Text → Endpoint
  get_me : Endpoint
  post_users : Option CreateUserRequest → Endpoint
  get_users : Option UserFilter → PageQuery → Endpoint
  get_users_id : Text → Endpoint
  patch_users_id : Text → Option UpdateUserRequest → Endpoint
  delete_users_id : Text → Endpoint
  get_users_permissions : Text → Endpoint
  put_users_permission : Text → Text → UserPermissionRequest → Extras → Endpoint
  delete_users_permission : Text → Text → Extras → Endpoint
  post_roles : Option RoleRequest → Endpoint
  get_roles : Endpoint
  get_roles_permissions : Text → Endpoint
  put_roles_permissions : Text → Option (List Text) → Endpoint
  get_permissions_matrix : Endpoint
  get_permissions_list : Endpoint
  get_permission_changes : Option AuditLogQuery → PageQuery → Endpoint

-- What stands before the handler: nothing, AuthMiddleware, or AllowedPermissions behind it.
pub data Access : Type 0 where
  public signed_in : Access
  permitted : Text → Access

unfoldable pub access_of : Endpoint → Access
access_of (post_login body) = public
access_of (post_refresh body) = public
access_of get_me = signed_in
access_of (post_users body) = permitted (codes "user.create")
access_of (get_users filter q) = permitted (codes "user.view")
access_of (get_users_id id) = permitted (codes "user.view")
access_of (patch_users_id id body) = permitted (codes "user.edit")
access_of (delete_users_id id) = permitted (codes "user.delete")
access_of (get_users_permissions id) = permitted (codes "user.view")
access_of (put_users_permission id p body q) = permitted (codes "user.edit")
access_of (delete_users_permission id p q) = permitted (codes "user.edit")
access_of (post_roles body) = permitted (codes "role.edit")
access_of get_roles = permitted (codes "user.view")
access_of (get_roles_permissions role) = permitted (codes "user.view")
access_of (put_roles_permissions role body) = permitted (codes "role.edit")
access_of get_permissions_matrix = permitted (codes "user.view")
access_of get_permissions_list = signed_in
access_of (get_permission_changes filter q) = permitted (codes "user.view")

module _ {S R : Type 0} (app : App S R) (now : Instant) where
  -- AuthMiddleware before what the user's request goes on with.
  unfoldable pub behind_auth : Text → (Text → Handler S R) → Handler S R
  behind_auth auth_header go_on w = elim (auth_middleware app.lib app.jwt auth_header now) [
    | Authentication.unauthorized message ↦ (unauthorized message, w)
    | Authentication.authenticated user_id ↦ go_on user_id w
  ]

module _ {S R : Type 0} (app : App S R) (now : Instant) (uuid : Result Text) where
  -- The handler of a route, for the user that the locals hold.
  unfoldable pub handle : Endpoint → Text → Handler S R
  handle (post_login body) actor = Sessions.login app now body
  handle (post_refresh body) actor = Sessions.refresh_token app now body
  handle get_me actor = Sessions.me app now actor
  handle (post_users body) actor = Users.create_user app now uuid actor body
  handle (get_users filter q) actor = Users.list_users app now filter q
  handle (get_users_id id) actor = Users.get_user app now id
  handle (patch_users_id id body) actor = Users.update_user app now actor id body
  handle (delete_users_id id) actor = Users.delete_user app id
  handle (get_users_permissions id) actor = Permissions.show_user_permissions app now id
  handle (put_users_permission id p body q) actor =
      Permissions.put_user_permission app now uuid actor id p body q
  handle (delete_users_permission id p q) actor =
      Permissions.delete_user_permission app now uuid actor id p q
  handle (post_roles body) actor = Roles.create_role app now body
  handle get_roles actor = Roles.list_roles app
  handle (get_roles_permissions role) actor = Roles.show_role_permissions app now role
  handle (put_roles_permissions role body) actor = Roles.put_role_permissions app now role body
  handle get_permissions_matrix actor = Permissions.show_permission_matrix app
  handle get_permissions_list actor = Permissions.show_permission_list app
  handle (get_permission_changes filter q) actor = Permissions.query_permission_changes app filter q

  -- AllowedPermissions(p) before the handler.
  unfoldable pub serve_permitted : Text → Endpoint → Text → Handler S R
  serve_permitted p e user_id w =
      let (decision, w') =
        allowed_permissions app.redis app.codec (some (auth_repository app.db)) (p ∷ [])
          (some user_id) w in
      elim decision [
        | Decision.next ↦ handle e user_id w'
        | Decision.unauthorized message ↦ (unauthorized message, w')
        | Decision.forbidden message ↦ (forbidden message, w')
      ]

  -- A request with its Authorization header.
  unfoldable pub serve : Text → Endpoint → Handler S R
  serve auth_header e w = elim (access_of e) [
    | public ↦ handle e [] w
    | signed_in ↦ behind_auth app now auth_header (handle e) w
    | permitted p ↦ behind_auth app now auth_header (serve_permitted p e) w
  ]
