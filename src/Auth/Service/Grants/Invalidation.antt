-- ===== src/Auth/Service/Grants/Invalidation.antt =====
-- internal/modules/auth/service.go: invalidateRolePermissionCache and
-- invalidateUserPermissionCache, and what they keep of the agreement between the cache and the
-- tables.
use golang_base.Base.{Option, none, some, Text, ◌≡◌, ap, ◌≢◌, arith}
use golang_base.Domain.{user_cache_key, role_cache_key}
use golang_base.Domain.Errors.{ok}
use golang_base.Infra.{Redis, Codec, World}
use golang_base.Infra.Laws.{RedisLaws}
use golang_base.Auth.Service.Grants.{
  invalidate_role_permission_cache, invalidate_user_permission_cache,
}
use golang_base.Middleware.Permission.{CachedAuthRepository}
use golang_base.Middleware.Permission.Coherence.{IsCoherent, get_value}

-- DEL on this key does not fail, if there is a Redis.
abbrev pub Deletes : {R : Type 0} → Redis R → Text → Option R → Type 0
Deletes redis key none = Unit
Deletes redis key (some r) = (redis.del key r).0 ≡ ok tt

module _ {S R : Type 0} (redis : Redis R) (codec : Codec) (repo : CachedAuthRepository S) where
  -- A write that no read of the two tables notices keeps the cache coherent.
  pub frame-IsCoherent :
      (w : World S R) (s' : S)
      → IsCoherent redis codec repo w
      → ((role : Text) → repo.get_role_permissions role s' ≡ repo.get_role_permissions role w.store)
      → ((id : Text) → repo.get_user_permissions id s' ≡ repo.get_user_permissions id w.store)
      → IsCoherent redis codec repo (record w { store = s' })
  frame-IsCoherent w s' h roles users = record {
    roles = λ role b rows found e. rw (roles role) (h.roles role b rows found e);
    users = λ id b rows found e. rw (users id) (h.users id b rows found e);
  }

  module _ (laws : RedisLaws redis) where
    get_value-del :
        (key j b : Text) (r : R)
        → (redis.del key r).0 ≡ ok tt
        → get_value redis j (some (redis.del key r).1) ≡ some b
        → (j ≢ key) × (get_value redis j (some r) ≡ some b)
    get_value-del key j b r h found =
        (λ same. ground (arith, laws.get_del key r h), laws.get_del_other key j b r found)

    -- A write to one role's rows, followed by a DEL of its key.
    pub invalidate_role-IsCoherent :
        (role : Text) (s s' : S) (r : Option R)
        → IsCoherent redis codec repo (record { store = s; redis = r })
        → Deletes redis (role_cache_key role) r
        → ((other : Text)
            → other ≢ role
            → repo.get_role_permissions other s' ≡ repo.get_role_permissions other s)
        → ((id : Text) → repo.get_user_permissions id s' ≡ repo.get_user_permissions id s)
        → IsCoherent redis codec repo
            (invalidate_role_permission_cache redis role (record { store = s'; redis = r })).1
    unfolding invalidate_role_permission_cache
    invalidate_role-IsCoherent role s s' none h deletes roles users = record {
      roles = λ other b rows found e. cc;
      users = λ id b rows found e. cc;
    }
    invalidate_role-IsCoherent role s s' (some r) h deletes roles users = record {
      roles = λ other b rows found e.
          let (apart, before) =
            get_value-del (role_cache_key role) (role_cache_key other) b r deletes found in
          rw (roles other (λ same. apart (ap role_cache_key same))) (h.roles other b rows before e);
      users = λ id b rows found e.
          let (apart, before) =
            get_value-del (role_cache_key role) (user_cache_key id) b r deletes found in
          rw (users id) (h.users id b rows before e);
    }

    -- A write to one user's rows, followed by a DEL of its key. The write may change what is read
    -- under other identifiers, if nothing is cached for them.
    pub invalidate_user-IsCoherent :
        (id : Text) (s s' : S) (r : Option R)
        → IsCoherent redis codec repo (record { store = s; redis = r })
        → Deletes redis (user_cache_key id) r
        → ((role : Text) → repo.get_role_permissions role s' ≡ repo.get_role_permissions role s)
        → ((other b : Text)
            → other ≢ id
            → get_value redis (user_cache_key other) r ≡ some b
            → repo.get_user_permissions other s' ≡ repo.get_user_permissions other s)
        → IsCoherent redis codec repo
            (invalidate_user_permission_cache redis id (record { store = s'; redis = r })).1
    unfolding invalidate_user_permission_cache
    invalidate_user-IsCoherent id s s' none h deletes roles users = record {
      roles = λ role b rows found e. cc;
      users = λ other b rows found e. cc;
    }
    invalidate_user-IsCoherent id s s' (some r) h deletes roles users = record {
      roles = λ role b rows found e.
          let (apart, before) =
            get_value-del (user_cache_key id) (role_cache_key role) b r deletes found in
          rw (roles role) (h.roles role b rows before e);
      users = λ other b rows found e.
          let (apart, before) =
            get_value-del (user_cache_key id) (user_cache_key other) b r deletes found in
          rw (users other b (λ same. apart (ap user_cache_key same)) before)
            (h.users other b rows before e);
    }
