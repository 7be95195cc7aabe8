-- ===== src/Auth/Service/Grants/Cached.antt =====
-- The changes of permissions and the cached rows: what internal/modules/auth/service.go invalidates
-- is enough for internal/middleware/permission.go to read what the tables hold.
use mathlib.Core.Path.{subst}
use golang_base.Base.{
  Bool, true, false, Bool-cases, Option, none, some, [], ◌∷◌, Text, ◌==◌, ◌≡◌, sym, if◌then◌else◌,
  ◌≢◌, ◌⊎◌, inl, inr, arith,
}
use golang_base.Domain.{Instant, PermissionChangesLog, user_cache_key, role_cache_key}
use golang_base.Domain.Errors.{Error, Result, ok, err, Result-cases}
use golang_base.Infra.{Database, Redis, Codec, World, Write, Action, on_store}
use golang_base.Infra.Monad.{◌>>◌}
use golang_base.Infra.Laws.{RedisLaws, FrameLaws}
use golang_base.Auth.Repository
use golang_base.Auth.Module.{auth_repository}
use golang_base.Auth.Service.Grants.{
  PermissionChange, Target, of_role, of_user, nowhere, target_of, apply_grant, apply_revoke,
  grant_user_permission, revoke_user_permission, invalidate_role_permission_cache,
  invalidate_user_permission_cache, grant_log, revoke_log,
}
use golang_base.Auth.Service.Grants.Invalidation.{
  Deletes, frame-IsCoherent, invalidate_role-IsCoherent, invalidate_user-IsCoherent,
}
use golang_base.Middleware.Permission.Coherence.{IsCoherent, get_value}

-- A write and what follows it, by how the write ended.
module _ {S R : Type 0} (m : Write S) (k : Action S R (Unit {0})) (w : World S R) where
  then-ok : (m w.store).0 ≡ ok tt → (on_store m >> k) w ≡ k (record w { store = (m w.store).1 })
  then-ok e = ground arith

  then-err :
      {e : Error}
      → (m w.store).0 ≡ err e
      → (on_store m >> k) w ≡ (err e, record w { store = (m w.store).1 })
  then-err e = ground arith

-- Which keys the change deletes.
abbrev pub DeletesTarget : {R : Type 0} → Redis R → Target → Option R → Type 0
DeletesTarget redis (of_role role) r = Deletes redis (role_cache_key role) r
DeletesTarget redis (of_user id) r = Deletes redis (user_cache_key id) r
DeletesTarget redis nowhere r = Unit

-- No rows are cached under another spelling of the target's identifier.
abbrev pub HasOneSpelling :
    {R : Type 0} → Redis R → (Text → Text → Bool) → Target → Option R → Type 0
HasOneSpelling redis same_id (of_user id) r =
    (other : Text)
    → same_id id other ≡ true
    → (id ≡ other) ⊎ (get_value redis (user_cache_key other) r ≡ none)
HasOneSpelling redis same_id (of_role role) r = Unit
HasOneSpelling redis same_id nowhere r = Unit

module _ {S R : Type 0} (db : Database S) (redis : Redis R) (codec : Codec) (frame : FrameLaws db)
    (laws : RedisLaws redis) where
  -- A write to one role's rows and the DEL of its key, whether the write fails or not.
  write_role-IsCoherent :
      (m : Write S) (role : Text) (w : World S R)
      → IsCoherent redis codec (auth_repository db) w
      → Deletes redis (role_cache_key role) w.redis
      → ((other : Text)
          → (role ≢ other) ⊎ ((m w.store).0 ≢ ok tt)
          → db.select_role_permissions other (m w.store).1
            ≡ db.select_role_permissions other w.store)
      → ((id : Text)
          → db.select_user_permissions id (m w.store).1 ≡ db.select_user_permissions id w.store)
      → IsCoherent redis codec
          (auth_repository db)
          ((on_store m >> invalidate_role_permission_cache redis role) w).1
  unfolding auth_repository Repository.get_role_permissions Repository.get_user_permissions
  write_role-IsCoherent m role w h deletes roles users = elim (Result-cases (m w.store).0) [
    | inl (u, e) ↦
        subst (λ x. IsCoherent redis codec (auth_repository db) x.1)
          (sym (then-ok m (invalidate_role_permission_cache redis role) w e))
          (invalidate_role-IsCoherent redis codec (auth_repository db) laws role w.store
            (m w.store).1 w.redis h deletes
            (λ other apart. roles other (inl (λ same. apart (sym same)))) users)
    | inr (e, failed) ↦
        subst (λ x. IsCoherent redis codec (auth_repository db) x.1)
          (sym (then-err m (invalidate_role_permission_cache redis role) w failed))
          (frame-IsCoherent redis codec (auth_repository db) w (m w.store).1 h
            (λ other. roles other (inr (λ done. cc))) users)
  ]

  write_user-IsCoherent :
      (m : Write S) (id : Text) (w : World S R)
      → IsCoherent redis codec (auth_repository db) w
      → Deletes redis (user_cache_key id) w.redis
      → HasOneSpelling redis frame.same_id (of_user id) w.redis
      → ((role : Text)
          → db.select_role_permissions role (m w.store).1 ≡ db.select_role_permissions role w.store)
      → ((other : Text)
          → (frame.same_id id other ≡ false) ⊎ ((m w.store).0 ≢ ok tt)
          → db.select_user_permissions other (m w.store).1
            ≡ db.select_user_permissions other w.store)
      → IsCoherent redis codec
          (auth_repository db)
          ((on_store m >> invalidate_user_permission_cache redis id) w).1
  unfolding auth_repository Repository.get_role_permissions Repository.get_user_permissions
  write_user-IsCoherent m id w h deletes single roles users = elim (Result-cases (m w.store).0) [
    | inl (u, e) ↦
        subst (λ x. IsCoherent redis codec (auth_repository db) x.1)
          (sym (then-ok m (invalidate_user_permission_cache redis id) w e))
          (invalidate_user-IsCoherent redis codec (auth_repository db) laws id w.store (m w.store).1
            w.redis h deletes roles
            (λ other b apart found. elim (Bool-cases (frame.same_id id other)) [
              | inr differ ↦ users other (inl differ)
              | inl same ↦ elim (single other same) [
                | inl one ↦ absurd (apart (sym one))
                | inr empty ↦ cc
              ]
            ]))
    | inr (e, failed) ↦
        subst (λ x. IsCoherent redis codec (auth_repository db) x.1)
          (sym (then-err m (invalidate_user_permission_cache redis id) w failed))
          (frame-IsCoherent redis codec (auth_repository db) w (m w.store).1 h roles
            (λ other. users other (inr (λ done. cc))))
  ]

  apply_grant-IsCoherent :
      (now : Instant) (c : PermissionChange) (t : Target) (w : World S R)
      → IsCoherent redis codec (auth_repository db) w
      → DeletesTarget redis t w.redis
      → HasOneSpelling redis frame.same_id t w.redis
      → IsCoherent redis codec (auth_repository db) (apply_grant db redis now c t w).1
  unfolding apply_grant Repository.grant_role_permission Repository.grant_user_permission
  apply_grant-IsCoherent now c nowhere w h deletes single = h
  apply_grant-IsCoherent now c (of_role role) w h deletes single =
      write_role-IsCoherent
        (Repository.grant_role_permission db now role c.permission (c.expires_at ∷ [])) role w h
        deletes (frame.upsert_role_roles _ w.store) (frame.upsert_role_users _ w.store)
  apply_grant-IsCoherent now c (of_user id) w h deletes single =
      write_user-IsCoherent
        (Repository.grant_user_permission db now id c.permission c.is_granted c.expires_at
          (some c.actor_id ∷ []))
        id w h deletes single (frame.upsert_user_roles _ w.store)
        (frame.upsert_user_users _ w.store)

  apply_revoke-IsCoherent :
      (c : PermissionChange) (t : Target) (w : World S R)
      → IsCoherent redis codec (auth_repository db) w
      → DeletesTarget redis t w.redis
      → HasOneSpelling redis frame.same_id t w.redis
      → IsCoherent redis codec (auth_repository db) (apply_revoke db redis c t w).1
  unfolding apply_revoke Repository.revoke_role_permission Repository.revoke_user_permission
  apply_revoke-IsCoherent c nowhere w h deletes single = h
  apply_revoke-IsCoherent c (of_role role) w h deletes single =
      write_role-IsCoherent (Repository.revoke_role_permission db role c.permission) role w h
        deletes (frame.delete_role_roles role c.permission w.store)
        (frame.delete_role_users role c.permission w.store)
  apply_revoke-IsCoherent c (of_user id) w h deletes single =
      write_user-IsCoherent (Repository.revoke_user_permission db id c.permission) id w h deletes
        single (frame.delete_user_roles id c.permission w.store)
        (frame.delete_user_users id c.permission w.store)

  -- A read that no insertion into the log changes.
  log_frame :
      {A : Type 0} (f : S → A) {s₀ : S}
      → ((l : PermissionChangesLog) → f (db.insert_log l s₀).1 ≡ f s₀)
      → (uuid : Result Text) (log : PermissionChangesLog)
      → f (Repository.log_permission_change db uuid log s₀).1 ≡ f s₀
  unfolding Repository.log_permission_change
  log_frame f {s₀} keeps uuid log = elim (Result-cases (if log.id == [] then uuid else ok log.id)) [
    | inl (id, e) ↦ ground (arith, keeps (record log { id = id }))
    | inr (e, failed) ↦ ground arith
  ]

  -- The entry in the audit log touches neither table.
  log-IsCoherent :
      (uuid : Result Text) (log : PermissionChangesLog) (w : World S R)
      → IsCoherent redis codec (auth_repository db) w
      → IsCoherent redis codec
          (auth_repository db)
          (on_store (Repository.log_permission_change db uuid log) w).1
  unfolding Repository.log_permission_change auth_repository Repository.get_role_permissions
      Repository.get_user_permissions
  log-IsCoherent uuid log w h =
      frame-IsCoherent redis codec (auth_repository db) w
        (Repository.log_permission_change db uuid log w.store).1 h
        (λ role.
          log_frame (λ s. db.select_role_permissions role s)
            (λ l. frame.insert_log_roles l w.store role) uuid log)
        (λ id.
          log_frame (λ s. db.select_user_permissions id s)
            (λ l. frame.insert_log_users l w.store id) uuid log)

  after_log :
      (m : Action S R (Unit {0})) (uuid : Result Text) (log : PermissionChangesLog) (w : World S R)
      → IsCoherent redis codec (auth_repository db) (m w).1
      → IsCoherent redis codec
          (auth_repository db)
          ((m >> on_store (Repository.log_permission_change db uuid log)) w).1
  after_log m uuid log w h = elim (Result-cases (m w).0) [
    | inl (u, e) ↦
        let step : (m >> on_store (Repository.log_permission_change db uuid log)) w
            ≡ on_store (Repository.log_permission_change db uuid log) (m w).1 =
          ground arith in
        subst (λ x. IsCoherent redis codec (auth_repository db) x.1) (sym step)
          (log-IsCoherent uuid log (m w).1 h)
    | inr (e, failed) ↦
        let step : (m >> on_store (Repository.log_permission_change db uuid log)) w
            ≡ (err e, (m w).1) =
          ground arith in
        subst (λ x. IsCoherent redis codec (auth_repository db) x.1) (sym step) h
  ]

  -- Under the laws of the statements and of Redis: after GrantUserPermission, whichever of its
  -- steps fails, the cache agrees with the tables, if it agreed before, the DEL of the target's
  -- key does not fail, and no rows are cached under another spelling of the target's UUID.
  pub grant_user_permission-IsCoherent :
      (now : Instant) (uuid : Result Text) (c : PermissionChange) (w : World S R)
      → IsCoherent redis codec (auth_repository db) w
      → DeletesTarget redis (target_of c.target_type c.target_role c.target_user_id) w.redis
      → HasOneSpelling redis frame.same_id
          (target_of c.target_type c.target_role c.target_user_id)
          w.redis
      → IsCoherent redis codec (auth_repository db) (grant_user_permission db redis now uuid c w).1
  unfolding grant_user_permission
  grant_user_permission-IsCoherent now uuid c w h deletes single =
      let t = target_of c.target_type c.target_role c.target_user_id in
      after_log (apply_grant db redis now c t) uuid (grant_log now c) w
        (apply_grant-IsCoherent now c t w h deletes single)

  -- Under the laws of the statements and of Redis: after RevokeUserPermission, whichever of its
  -- steps fails, the cache agrees with the tables, if it agreed before, the DEL of the target's
  -- key does not fail, and no rows are cached under another spelling of the target's UUID.
  pub revoke_user_permission-IsCoherent :
      (now : Instant) (uuid : Result Text) (c : PermissionChange) (w : World S R)
      → IsCoherent redis codec (auth_repository db) w
      → DeletesTarget redis (target_of c.target_type c.target_role c.target_user_id) w.redis
      → HasOneSpelling redis frame.same_id
          (target_of c.target_type c.target_role c.target_user_id)
          w.redis
      → IsCoherent redis codec (auth_repository db) (revoke_user_permission db redis now uuid c w).1
  unfolding revoke_user_permission
  revoke_user_permission-IsCoherent now uuid c w h deletes single =
      let t = target_of c.target_type c.target_role c.target_user_id in
      after_log (apply_revoke db redis c t) uuid (revoke_log now c) w
        (apply_revoke-IsCoherent c t w h deletes single)
