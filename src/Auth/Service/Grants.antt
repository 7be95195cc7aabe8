-- ===== src/Auth/Service/Grants.antt =====
-- internal/modules/auth/service.go: the changes of permissions, with the invalidation of the cached
-- rows and the entry in the audit log. One instant stands for the clock during a call.
pub mod Bulk
pub mod Update
pub mod Invalidation
pub mod Cached
pub mod CachedUpdate
use golang_base.Base.{
  Bool, true, false, not, ◌&&◌, Option, none, some, List, [], ◌∷◌, Text, codes, ◌==◌, Dict, has_key,
  if◌then◌else◌,
}
use golang_base.Domain.{
  Instant, user_cache_key, role_cache_key, RolePermission, PermissionChangesLog,
}
use golang_base.Domain.Errors.{Result, ok, err}
use golang_base.Infra.{Database, Redis, World, Action, on_store}
use golang_base.Infra.Monad.{◌>>=◌, ◌>>◌, skip, when, read}
use golang_base.Auth.Repository
use golang_base.Auth.Service.{add_all}

-- The arguments of GrantUserPermission. RevokeUserPermission has them but the two about the grant.
pub record PermissionChange : Type 0 where
  pub target_type : Text
  pub target_role : Option Text
  pub target_user_id : Option Text
  pub permission : Text
  pub is_granted : Bool
  pub expires_at : Option Instant
  pub actor_id : Text
  pub reason : Option Text
  pub ip_address : Option Text
  pub user_agent : Option Text

-- Where a change goes: the two tests of GrantUserPermission and RevokeUserPermission in turn.
pub data Target : Type 0 where
  of_role of_user : Text → Target
  nowhere : Target

abbrev user_target : Text → Option Text → Target
user_target target_type none = nowhere
user_target target_type (some id) =
    if target_type == codes "user_permission" then of_user id else nowhere

unfoldable pub target_of : Text → Option Text → Option Text → Target
target_of target_type none user_id = user_target target_type user_id
target_of target_type (some role) user_id =
    if target_type == codes "role" then of_role role else user_target target_type user_id

-- The permissions of the rows, as the keys of `existingMap`.
unfoldable pub permissions_of : List RolePermission → List Text
permissions_of [] = []
permissions_of (p ∷ rows) = p.permission ∷ permissions_of rows

-- The audit log's entry for a grant.
unfoldable pub grant_log : Instant → PermissionChange → PermissionChangesLog
grant_log now c = record {
  id = [];
  action = if c.is_granted then codes "grant" else codes "revoke";
  target_type = c.target_type;
  target_role = c.target_role;
  target_user_id = c.target_user_id;
  permission = c.permission;
  is_granted = c.is_granted;
  changed_by = c.actor_id;
  reason = c.reason;
  ip_address = c.ip_address;
  user_agent = c.user_agent;
  created_at = now;
  expires_at = c.expires_at;
}

-- The audit log's entry for a revocation.
unfoldable pub revoke_log : Instant → PermissionChange → PermissionChangesLog
revoke_log now c = record {
  id = [];
  action = codes "revoke";
  target_type = c.target_type;
  target_role = c.target_role;
  target_user_id = c.target_user_id;
  permission = c.permission;
  is_granted = false;
  changed_by = c.actor_id;
  reason = c.reason;
  ip_address = c.ip_address;
  user_agent = c.user_agent;
  created_at = now;
  expires_at = none;
}

module _ {S R : Type 0} (redis : Redis R) where
  -- Nothing without Redis; the error of DEL is dropped.
  unfoldable pub invalidate_user_permission_cache : Text → Action S R (Unit {0})
  invalidate_user_permission_cache user_id w = elim w.redis [
    | none ↦ (ok tt, w)
    | some r ↦ (ok tt, record w { redis = some (redis.del (user_cache_key user_id) r).1 })
  ]

  unfoldable pub invalidate_role_permission_cache : Text → Action S R (Unit {0})
  invalidate_role_permission_cache role w = elim w.redis [
    | none ↦ (ok tt, w)
    | some r ↦ (ok tt, record w { redis = some (redis.del (role_cache_key role) r).1 })
  ]

module _ {S R : Type 0} (db : Database S) (redis : Redis R) where
  -- `for _, perm := range permissions { if !existingMap[perm] { grant } }`
  unfoldable pub grant_missing : Instant → Text → Dict Bool → List Text → Action S R (Unit {0})
  grant_missing now role existing [] = skip
  grant_missing now role existing (perm ∷ permissions) =
      when (not (has_key perm existing))
        (on_store (Repository.grant_role_permission db now role perm []))
      >> grant_missing now role existing permissions

  -- `for _, p := range existing { if !newMap[p.Permission] { revoke } }`
  unfoldable pub revoke_dropped : Text → Dict Bool → List RolePermission → Action S R (Unit {0})
  revoke_dropped role kept [] = skip
  revoke_dropped role kept (p ∷ existing) =
      when (not (has_key p.permission kept))
        (on_store (Repository.revoke_role_permission db role p.permission))
      >> revoke_dropped role kept existing

  unfoldable pub update_role_permissions : Instant → Text → List Text → Action S R (Unit {0})
  update_role_permissions now role permissions = do
    existing ← on_store (read (Repository.get_role_permissions db role))
    grant_missing now role (add_all (permissions_of existing) []) permissions
    revoke_dropped role (add_all permissions []) existing
    invalidate_role_permission_cache redis role

  -- The first half of GrantUserPermission.
  unfoldable pub apply_grant : Instant → PermissionChange → Target → Action S R (Unit {0})
  apply_grant now c (of_role role) = do
    on_store (Repository.grant_role_permission db now role c.permission (c.expires_at ∷ []))
    invalidate_role_permission_cache redis role
  apply_grant now c (of_user id) = do
    on_store (
        Repository.grant_user_permission db now id c.permission c.is_granted c.expires_at
          (some c.actor_id ∷ []))
    invalidate_user_permission_cache redis id
  apply_grant now c nowhere = skip

  unfoldable pub grant_user_permission :
      Instant → Result Text → PermissionChange → Action S R (Unit {0})
  grant_user_permission now uuid c = do
    apply_grant now c (target_of c.target_type c.target_role c.target_user_id)
    on_store (Repository.log_permission_change db uuid (grant_log now c))

  -- The first half of RevokeUserPermission.
  unfoldable pub apply_revoke : PermissionChange → Target → Action S R (Unit {0})
  apply_revoke c (of_role role) = do
    on_store (Repository.revoke_role_permission db role c.permission)
    invalidate_role_permission_cache redis role
  apply_revoke c (of_user id) = do
    on_store (Repository.revoke_user_permission db id c.permission)
    invalidate_user_permission_cache redis id
  apply_revoke c nowhere = skip

  unfoldable pub revoke_user_permission :
      Instant → Result Text → PermissionChange → Action S R (Unit {0})
  revoke_user_permission now uuid c = do
    apply_revoke c (target_of c.target_type c.target_role c.target_user_id)
    on_store (Repository.log_permission_change db uuid (revoke_log now c))
