-- ===== src/Auth/Dto.antt =====
-- internal/modules/auth/dto.go: what the handlers answer with, and the filter of a listing. A
-- formatted time is the text that `format` gives, package time's layout "2006-01-02 15:04:05".
use golang_base.Base.{ℕ, Bool, false, Option, none, some, List, [], Text, codes, ℤ, Dict}
use golang_base.Domain.{Instant, User, Role}
use golang_base.Domain.Permissions.{PermissionDefinition}

pub record UserFilter : Type 0 where
  pub search : Option Text
  pub role : Option Text
  pub is_active : Option Bool
  pub limit : ℤ
  pub offset : ℤ

pub record UserResponse : Type 0 where
  pub id : Text
  pub name : Text
  pub email : Text
  pub roles : List Text
  pub is_active : Bool
  pub created_at : Text
  pub permissions : List Text

pub record AuthResponse : Type 0 where
  pub access_token : Text
  pub token_type : Text
  pub expires_in : ℕ
  pub refresh_token : Text
  pub user : Option UserResponse

pub record RoleResponse : Type 0 where
  pub role : Text
  pub description : Text
  pub created_at : Text

pub record PermissionMatrixResponse : Type 0 where
  pub permissions : List Text
  pub roles : List Text
  pub matrix : Dict (Dict Bool)

pub record RolePermissionsResponse : Type 0 where
  pub role : Text
  pub permissions : List Text

pub record PermissionListResponse : Type 0 where
  pub permissions : List PermissionDefinition
  pub roles : List Text

pub new_auth_response : Text → Text → Option UserResponse → AuthResponse
new_auth_response access refresh user = record {
  access_token = access;
  token_type = codes "Bearer";
  expires_in = 900;
  refresh_token = refresh;
  user = user;
}

module _ (format : Instant → Text) where
  -- A nil user gives the empty response.
  unfoldable pub to_user_response : Option User → UserResponse
  to_user_response none = record {
    id = [];
    name = [];
    email = [];
    roles = [];
    is_active = false;
    created_at = [];
    permissions = [];
  }
  to_user_response (some user) = record {
    id = user.id;
    name = user.name;
    email = user.email;
    roles = user.roles;
    is_active = user.is_active;
    created_at = format user.created_at;
    permissions = [];
  }

  unfoldable pub to_user_response_ptr : Option User → Option UserResponse
  to_user_response_ptr none = none
  to_user_response_ptr (some user) = some (to_user_response (some user))

  unfoldable pub to_user_response_with_permissions : Option User → List Text → UserResponse
  to_user_response_with_permissions user permissions = record (to_user_response user) {
    permissions = permissions;
  }

  unfoldable pub to_role_response : Role → RoleResponse
  to_role_response role = record {
    role = role.role;
    description = role.description;
    created_at = format role.created_at;
  }
