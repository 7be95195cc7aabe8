-- ===== src/Middleware/Permission.antt =====
-- internal/middleware/permission.go: the permission check of a route, over rows that are cached in
-- Redis.
pub mod Patterns
pub mod Coherence
pub mod Access
pub mod Passing
use golang_base.Base.{
  ℕ, Bool, true, false, ◌++◌, Option, none, some, List, [], ◌∷◌, Text, codes, ◌==◌, contains,
  cut_suffix, has_prefix, if◌then◌else◌,
}
use golang_base.Domain.{
  role_super_admin, user_cache_key, role_cache_key, cache_ttl, User, RolePermission, UserPermission,
}
use golang_base.Domain.Errors.{Result, ok, err}
use golang_base.Infra.{Redis, Codec, World, Action}

-- The functions that InitPermissionMiddleware is given; the Redis client is in the World.
pub record CachedAuthRepository (S : Type 0) : Type 0 where
  pub get_user_by_id : Text → S → Result User
  pub get_user_permissions : Text → S → Result (List UserPermission)
  pub get_role_permissions : Text → S → Result (List RolePermission)

-- How the request goes on: the next handler, or a response with its message.
pub data Decision : Type 0 where
  next : Decision
  unauthorized forbidden : Text → Decision

-- One pattern: the permission itself, or "master.*", which matches "master.view".
unfoldable pub matches_pattern : Text → Text → Bool
matches_pattern user_perm pattern' =
    if user_perm == pattern' then true else elim (cut_suffix pattern' (codes ".*")) [
      | none ↦ false
      | some prefix ↦ has_prefix user_perm (prefix ++ codes ".")
    ]

unfoldable pub match_permission : Text → List Text → Bool
match_permission user_perm [] = false
match_permission user_perm (pattern' ∷ rest) =
    let later = match_permission user_perm rest in
    if matches_pattern user_perm pattern' then true else later

-- `for _, p := range rolePerms`
unfoldable pub some_role_row_matches : List Text → List RolePermission → Bool
some_role_row_matches permissions [] = false
some_role_row_matches permissions (p ∷ rows) =
    let later = some_role_row_matches permissions rows in
    if match_permission p.permission permissions then true else later

-- `for _, up := range userPerms`
unfoldable pub some_user_row_matches : List Text → List UserPermission → Bool
some_user_row_matches permissions [] = false
some_user_row_matches permissions (up ∷ rows) =
    let later = some_user_row_matches permissions rows in
    if match_permission up.permission permissions then true else later

module _ {R A : Type 0} (redis : Redis R) where
  -- The value under the key, if Redis is there, has it, and it unmarshals.
  unfoldable pub cached_rows : (Text → Option (List A)) → Text → Option R → Option (List A)
  cached_rows unmarshal key none = none
  cached_rows unmarshal key (some r) = elim (redis.get key r) [ none ↦ none | some b ↦ unmarshal b ]

  -- Rows are cached if there are any and they marshal; the error of SET is dropped.
  unfoldable pub cache_rows : (List A → Option Text) → Text → List A → Option R → Option R
  cache_rows marshal key rows none = none
  cache_rows marshal key [] (some r) = some r
  cache_rows marshal key (row ∷ rows) (some r) = elim (marshal (row ∷ rows)) [
    | none ↦ some r
    | some b ↦ some (redis.set key b cache_ttl r)
  ]

  -- The body that the two cached reads share.
  unfoldable pub cached_get :
      {S : Type 0}
      → (List A → Option Text)
      → (Text → Option (List A))
      → Text
      → (S → Result (List A))
      → Action S R (List A)
  cached_get marshal unmarshal key fetch w = elim (cached_rows unmarshal key w.redis) [
    | some perms ↦ (ok perms, w)
    | none ↦ elim (fetch w.store) [
      | err e ↦ (err e, w)
      | ok perms ↦ (ok perms, record w { redis = cache_rows marshal key perms w.redis })
    ]
  ]

module _ {S R : Type 0} (redis : Redis R) (codec : Codec) (repo : CachedAuthRepository S) where
  unfoldable pub cached_get_role_permissions : Text → Action S R (List RolePermission)
  cached_get_role_permissions role =
      cached_get redis codec.marshal_roles codec.unmarshal_roles (role_cache_key role)
        (repo.get_role_permissions role)

  unfoldable pub cached_get_user_permissions : Text → Action S R (List UserPermission)
  cached_get_user_permissions user_id =
      cached_get redis codec.marshal_users codec.unmarshal_users (user_cache_key user_id)
        (repo.get_user_permissions user_id)

  -- The loop over the user's roles: whether it returns `c.Next()`, and what it cached until then.
  unfoldable pub check_roles : List Text → List Text → World S R → Bool × World S R
  check_roles permissions [] w = (false, w)
  check_roles permissions (role ∷ roles) w =
      let (perms, w') = cached_get_role_permissions role w in
      elim perms [
        | err e ↦ check_roles permissions roles w'
        | ok rows ↦ elim (some_role_row_matches permissions rows) [
          | true ↦ (true, w')
          | false ↦ check_roles permissions roles w'
        ]
      ]

  -- The last step: the user's own rows.
  unfoldable pub check_user : List Text → Text → World S R → Decision × World S R
  check_user permissions user_id w =
      let (perms, w') = cached_get_user_permissions user_id w in
      elim perms [
        | err e ↦ (forbidden (codes "insufficient permissions"), w')
        | ok rows ↦
            if some_user_row_matches permissions rows
            then (next, w')
            else (forbidden (codes "insufficient permissions"), w')
      ]

  -- The handler for a user identifier from the request's locals.
  unfoldable pub check_access : List Text → Option Text → World S R → Decision × World S R
  check_access permissions none w = (unauthorized (codes "unauthorized"), w)
  check_access permissions (some []) w = (unauthorized (codes "unauthorized"), w)
  check_access permissions (some (c ∷ id)) w = elim (repo.get_user_by_id (c ∷ id) w.store) [
    | err e ↦ (unauthorized (codes "user not found"), w)
    | ok user ↦
        if contains role_super_admin user.roles
        then (next, w)
        else (let (allowed, w') = check_roles permissions user.roles w in
            if allowed then (next, w') else check_user permissions (c ∷ id) w')
  ]

  -- The two invalidations: nothing to do without Redis.
  unfoldable pub invalidate_user_permissions_cache : Text → Action S R (Unit {0})
  invalidate_user_permissions_cache user_id w = elim w.redis [
    | none ↦ (ok tt, w)
    | some r ↦
        let (done, r') = redis.del (user_cache_key user_id) r in
        (done, record w { redis = some r' })
  ]

  unfoldable pub invalidate_role_permissions_cache : Text → Action S R (Unit {0})
  invalidate_role_permissions_cache role w = elim w.redis [
    | none ↦ (ok tt, w)
    | some r ↦
        let (done, r') = redis.del (role_cache_key role) r in (done, record w { redis = some r' })
  ]

-- AllowedPermissions: without an initialised repository every request passes.
unfoldable pub allowed_permissions :
    {S R : Type 0} (redis : Redis R) (codec : Codec) (repo : Option (CachedAuthRepository S))
    → List Text
    → Option Text
    → World S R
    → Decision × World S R
allowed_permissions redis codec none permissions user_id w = (next, w)
allowed_permissions redis codec (some repo) permissions user_id w =
    check_access redis codec repo permissions user_id w
