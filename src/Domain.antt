-- ===== src/Domain.antt =====
-- internal/domain: the entities of the program (user.go, role.go, cache.go). A `time.Time` is an
-- instant, a count of nanoseconds; a pointer field is an `Option`.
pub mod Errors
pub mod Permissions
use golang_base.Base.{ℕ, Bool, Option, List, ◌++◌, Text, codes, ◌*◌, ℤ}

abbrev pub Instant : Type 0
Instant = ℕ

-- The zero `time.Time`, of a field that a composite literal leaves out.
abbrev pub zero_time : Instant
zero_time = 0

-- `RoleSuperAdmin`
abbrev pub role_super_admin : Text
role_super_admin = codes "super_admin"

pub record User : Type 0 where
  pub id : Text
  pub name : Text
  pub email : Text
  pub password : Option Text
  pub roles : List Text
  pub is_active : Bool
  pub created_at : Instant
  pub updated_at : Instant

pub record Role : Type 0 where
  pub role : Text
  pub description : Text
  pub created_at : Instant

pub record UserRole : Type 0 where
  pub user_id : Text
  pub role : Text
  pub assigned_by : Option Text
  pub created_at : Instant

pub record RolePermission : Type 0 where
  pub role : Text
  pub permission : Text
  pub created_at : Instant
  pub expires_at : Option Instant

pub record UserPermission : Type 0 where
  pub user_id : Text
  pub permission : Text
  pub is_granted : Bool
  pub assigned_by : Option Text
  pub created_at : Instant
  pub expires_at : Option Instant

pub record PermissionChangesLog : Type 0 where
  pub id : Text
  pub action : Text
  pub target_type : Text
  pub target_role : Option Text
  pub target_user_id : Option Text
  pub permission : Text
  pub is_granted : Bool
  pub changed_by : Text
  pub reason : Option Text
  pub ip_address : Option Text
  pub user_agent : Option Text
  pub created_at : Instant
  pub expires_at : Option Instant

pub record PermissionQueryFilter : Type 0 where
  pub target_type : Option Text
  pub target_role : Option Text
  pub target_user_id : Option Text
  pub permission : Option Text
  pub changed_by : Option Text
  pub action : Option Text
  pub from_date : Option Instant
  pub to_date : Option Instant
  pub limit : ℤ
  pub offset : ℤ

-- `CacheUserPermissionsKey + userID`
abbrev pub user_cache_key : Text → Text
user_cache_key id = codes "user:permissions:" ++ id

-- `CacheRolePermissionsKey + role`
abbrev pub role_cache_key : Text → Text
role_cache_key role = codes "role:permissions:" ++ role

-- `CacheTTL`, in seconds
abbrev pub cache_ttl : ℕ
cache_ttl = 24 * 3600
