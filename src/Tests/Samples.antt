-- ===== src/Tests/Samples.antt =====
-- A small office: ann is an admin whose view of users has been revoked, root a super admin.
use golang_base.Base.{
  true, false, none, some, [], ◌∷◌, Text, codes, Dict, ◌==◌, contains, lookup, insert, erase, keys,
  has_prefix, cut_suffix, sort_strings, insert_sorted, text_le,
}
use golang_base.Domain.{User}
use golang_base.Infra.{World}
use golang_base.Auth.Repository
use golang_base.Auth.Module.{auth_repository}
use golang_base.Auth.Service
use golang_base.Auth.Service.Grants
use golang_base.Middleware.Permission
use golang_base.Tests.Memory.Rows.{role_row, select_role, upsert_role, delete_role}
use golang_base.Tests.Memory.Store.{
  Store, find_by, roles_of, without_roles, without_user, of_user, without_row,
}

-- What a run on these samples computes with.
unfoldable pub runs : Unit {0}
unfolding ◌==◌ contains lookup insert erase keys has_prefix cut_suffix sort_strings insert_sorted
    text_le Repository.get_user_by_id Repository.get_user_permissions
    Repository.get_role_permissions Repository.grant_role_permission
    Repository.revoke_role_permission Repository.grant_user_permission
    Repository.revoke_user_permission Repository.log_permission_change auth_repository
    Service.unexpired_permissions Service.collect_overrides Service.add_all Service.apply_overrides
    Service.get_role_permissions Service.get_user_permissions Service.collect_roles
    Service.computed_set Service.get_computed_permissions Service.some_role_has
    Service.has_permission Grants.target_of Grants.permissions_of Grants.grant_log Grants.revoke_log
    Grants.invalidate_user_permission_cache Grants.invalidate_role_permission_cache
    Grants.grant_missing Grants.revoke_dropped Grants.update_role_permissions Grants.apply_grant
    Grants.grant_user_permission Grants.apply_revoke Grants.revoke_user_permission
    Permission.matches_pattern Permission.match_permission Permission.cached_rows
    Permission.cache_rows Permission.cached_get Permission.cached_get_role_permissions
    Permission.cached_get_user_permissions Permission.some_role_row_matches
    Permission.some_user_row_matches Permission.check_roles Permission.check_user
    Permission.check_access role_row select_role upsert_role delete_role find_by roles_of
    without_roles without_user of_user without_row
runs = tt

abbrev pub user_view : Text
user_view = codes "user.view"

abbrev pub user_edit : Text
user_edit = codes "user.edit"

abbrev pub ann : User
ann = record {
  id = codes "u1";
  name = codes "Ann";
  email = codes "ann@x.io";
  password = none;
  roles = [];
  is_active = true;
  created_at = 1;
  updated_at = 1;
}

abbrev pub admin : Text
admin = codes "admin"

-- `user.edit` of the role runs out at 10.
abbrev pub office : Store
office = record {
  users = ann ∷ [];
  user_roles =
      record { user_id = codes "u1"; role = admin; assigned_by = none; created_at = 1 } ∷ [];
  roles = record { role = admin; description = []; created_at = 1 } ∷ [];
  role_rows =
      record { role = admin; permission = user_view; created_at = 1; expires_at = none }
      ∷ record { role = admin; permission = user_edit; created_at = 1; expires_at = some 10 }
      ∷ [];
  user_rows =
      record {
        user_id = codes "u1";
        permission = user_view;
        is_granted = false;
        assigned_by = none;
        created_at = 1;
        expires_at = none;
      }
      ∷ [];
  logs = [];
}

abbrev pub ann_with_roles : User
ann_with_roles = record ann { roles = admin ∷ [] }

abbrev pub world : World Store (Dict Text)
world = record { store = office; redis = some [] }
