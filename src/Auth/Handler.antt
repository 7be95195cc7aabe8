-- ===== src/Auth/Handler.antt =====
-- internal/modules/auth/handler.go: the HTTP handlers. This file: the requests after they are bound
-- (`none`: the body or the query did not bind), what the handlers answer with, and what they use.
pub mod Sessions
pub mod Users
pub mod Roles
pub mod Permissions
pub mod Views
use golang_base.Base.{ℕ, Bool, Option, none, some, List, [], ◌∷◌, Text, codes, Dict, ℤ}
use golang_base.Domain.{Instant, PermissionChangesLog}
use golang_base.Domain.Errors.{PgError, Result, ok, err}
use golang_base.Domain.Permissions.{Registry}
use golang_base.Infra.{Database, Redis, Codec, World}
use golang_base.Pkg.Jwt.{Jwt, JwtLibrary}
use golang_base.Pkg.Response.{Response}
use golang_base.Pkg.Validator.{FieldError}
use golang_base.Auth.Dto.{
  UserResponse, AuthResponse, RoleResponse, PermissionMatrixResponse, PermissionListResponse,
  RolePermissionsResponse,
}
use golang_base.Auth.Service.{get_computed_permissions}
use golang_base.Auth.Service.Accounts.{Bcrypt}

pub record RegisterRequest : Type 0 where
  pub email : Text
  pub password : Text
  pub name : Text
  pub roles : List Text

pub record LoginRequest : Type 0 where
  pub email : Text
  pub password : Text

pub record CreateUserRequest : Type 0 where
  pub email : Text
  pub password : Text
  pub name : Text
  pub roles : List Text

pub record UpdateUserRequest : Type 0 where
  pub name : Text
  pub roles : List Text
  pub is_active : Option Bool

pub record RoleRequest : Type 0 where
  pub role : Text
  pub description : Text

pub record UserPermissionRequest : Type 0 where
  pub granted : Option Bool
  pub expires_at : Option Text
  pub reason : Option Text

pub record AuditLogQuery : Type 0 where
  pub target_type : Option Text
  pub target_role : Option Text
  pub target_user_id : Option Text
  pub permission : Option Text
  pub changed_by : Option Text
  pub action : Option Text
  pub from_date : Option Text
  pub to_date : Option Text

-- The query parameters of a page, or their defaults.
pub record PageQuery : Type 0 where
  pub page : Text
  pub limit : Text

-- What the permission handlers read besides the body; an absent query parameter is empty.
pub record Extras : Type 0 where
  pub granted : Text
  pub reason : Text
  pub expires_at : Text
  pub ip : Text
  pub user_agent : Text

-- The content of a response.
pub data Payload : Type 0 where
  session_view : AuthResponse → Payload
  token_view : Text → Text → ℕ → Payload
  user_view : UserResponse → Payload
  users_view : List UserResponse → Payload
  role_view : RoleResponse → Payload
  roles_view : List RolePermissionsResponse → Payload
  permissions_view : List Text → Payload
  overrides_view : Dict Bool → Payload
  matrix_view : PermissionMatrixResponse → Payload
  definitions_view : PermissionListResponse → Payload
  logs_view : List PermissionChangesLog → Payload
  note : Text → Payload

-- What the program is assembled from: its database, cache and libraries. `field_errors` is the
-- validator package on the three requests that are validated; `parse_time` is time.Parse.
pub record App (S R : Type 0) : Type 0 where
  pub db : Database S
  pub redis : Redis R
  pub codec : Codec
  pub bcrypt : Bcrypt
  pub lib : JwtLibrary
  pub jwt : Jwt
  pub registry : Registry
  pub integrity_violation : PgError → Bool
  pub format : Instant → Text
  pub parse_time : Text → Text → Option Instant
  pub ceil_quotient : ℕ → ℕ → ℕ
  pub register_errors : RegisterRequest → List FieldError
  pub login_errors : LoginRequest → List FieldError
  pub create_errors : CreateUserRequest → List FieldError

abbrev pub Handler : Type 0 → Type 0 → Type 0
Handler S R = World S R → Response Payload × World S R

-- The default of an empty list of roles.
abbrev pub default_roles : List Text → List Text
default_roles [] = codes "user" ∷ []
default_roles (r ∷ rs) = r ∷ rs

-- A pointer to a text that is not empty.
abbrev pub nonempty : Text → Option Text
nonempty [] = none
nonempty (c ∷ cs) = some (c ∷ cs)

-- The permissions of a response: none if they cannot be computed.
unfoldable pub permissions_or_empty :
    {S : Type 0} → Database S → Instant → Text → List Text → S → List Text
permissions_or_empty db now user_id roles s =
    elim (get_computed_permissions db now user_id roles s) [ err e ↦ [] | ok ps ↦ ps ]
