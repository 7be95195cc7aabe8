-- ===== src/Auth/Module.antt =====
-- internal/modules/auth/module.go: the functions of the repository that the permission middleware
-- is given.
use golang_base.Infra.{Database}
use golang_base.Auth.Repository
use golang_base.Middleware.Permission.{CachedAuthRepository}

unfoldable pub auth_repository : {S : Type 0} → Database S → CachedAuthRepository S
auth_repository db = record {
  get_user_by_id = Repository.get_user_by_id db;
  get_user_permissions = Repository.get_user_permissions db;
  get_role_permissions = Repository.get_role_permissions db;
}
