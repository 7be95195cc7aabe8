-- ===== src/Auth/Service/Grants/CachedUpdate.antt =====
-- internal/modules/auth/service.go: a successful UpdateRolePermissions and the cached rows.
use mathlib.Core.Path.{subst}
use golang_base.Base.{
  Bool, List, [], ◌∷◌, Text, Dict, has_key, ◌≡◌, refl, sym, ◌∙◌, ◌≢◌, inl, inr, arith, Bool-cases,
}
use golang_base.Domain.{Instant, RolePermission, role_cache_key}
use golang_base.Domain.Errors.{ok, err, Result-cases}
use golang_base.Infra.{Database, Redis, Codec, World, on_store}
use golang_base.Infra.Laws.{RedisLaws, FrameLaws}
use golang_base.Auth.Repository
use golang_base.Auth.Module.{auth_repository}
use golang_base.Auth.Service.{add_all}
use golang_base.Auth.Service.Grants.{
  permissions_of, grant_missing, revoke_dropped, update_role_permissions,
  invalidate_role_permission_cache,
}
use golang_base.Auth.Service.Grants.Invalidation.{Deletes, invalidate_role-IsCoherent}
use golang_base.Middleware.Permission.Coherence.{IsCoherent}

module _ {S R : Type 0} (db : Database S) (redis : Redis R) (frame : FrameLaws db) where
  -- The second state differs at most in the rows of the role.
  abbrev DiffersAt : Text → World S R → World S R → Type 0
  DiffersAt role w w' =
      (w'.redis ≡ w.redis)
      × ((other : Text)
          → other ≢ role
          → db.select_role_permissions other w'.store ≡ db.select_role_permissions other w.store)
      × ((id : Text)
          → db.select_user_permissions id w'.store ≡ db.select_user_permissions id w.store)

  DiffersAt-trans :
      (role : Text) (u v w : World S R)
      → DiffersAt role u v
      → DiffersAt role v w
      → DiffersAt role u w
  DiffersAt-trans role u v w a b =
      (b.0 ∙ a.0, λ other apart. b.1 other apart ∙ a.1 other apart, λ id. b.2 id ∙ a.2 id)

  grant-DiffersAt :
      (now : Instant) (role p : Text) (w : World S R)
      → DiffersAt role w (on_store (Repository.grant_role_permission db now role p []) w).1
  unfolding Repository.grant_role_permission
  grant-DiffersAt now role p w = (
    refl,
    λ other apart. frame.upsert_role_roles _ w.store other (inl (λ same. apart (sym same))),
    frame.upsert_role_users _ w.store,
  )

  revoke-DiffersAt :
      (role p : Text) (w : World S R)
      → DiffersAt role w (on_store (Repository.revoke_role_permission db role p) w).1
  unfolding Repository.revoke_role_permission
  revoke-DiffersAt role p w = (
    refl,
    λ other apart. frame.delete_role_roles role p w.store other (inl (λ same. apart (sym same))),
    frame.delete_role_users role p w.store,
  )

  grant_missing-DiffersAt :
      (now : Instant) (role : Text) (had : Dict Bool) (perms : List Text) (w : World S R)
      → DiffersAt role w (grant_missing db redis now role had perms w).1
  unfolding grant_missing
  grant_missing-DiffersAt now role had [] w = (refl, λ other apart. refl, λ id. refl)
  grant_missing-DiffersAt now role had (p ∷ perms) w = elim (Bool-cases (has_key p had)) [
    | inl skipped ↦
        let step : grant_missing db redis now role had (p ∷ perms) w
            ≡ grant_missing db redis now role had perms w =
          rw (skipped, grant_missing) refl in
        subst (λ x. DiffersAt role w x.1) (sym step) (grant_missing-DiffersAt now role had perms w)
    | inr new ↦
        let w1 = (on_store (Repository.grant_role_permission db now role p []) w).1 in
        elim (Result-cases (on_store (Repository.grant_role_permission db now role p []) w).0) [
          | inr (e, failed) ↦
              let step : grant_missing db redis now role had (p ∷ perms) w ≡ (err e, w1) =
                ground arith in
              subst (λ x. DiffersAt role w x.1) (sym step) (grant-DiffersAt now role p w)
          | inl (u, e) ↦
              let step : grant_missing db redis now role had (p ∷ perms) w
                  ≡ grant_missing db redis now role had perms w1 =
                ground arith in
              subst (λ x. DiffersAt role w x.1) (sym step)
                (DiffersAt-trans role w w1 (grant_missing db redis now role had perms w1).1
                  (grant-DiffersAt now role p w) (grant_missing-DiffersAt now role had perms w1))
        ]
  ]

  revoke_dropped-DiffersAt :
      (role : Text) (kept : Dict Bool) (rows : List RolePermission) (w : World S R)
      → DiffersAt role w (revoke_dropped db redis role kept rows w).1
  unfolding revoke_dropped
  revoke_dropped-DiffersAt role kept [] w = (refl, λ other apart. refl, λ id. refl)
  revoke_dropped-DiffersAt role kept (p ∷ rows) w = elim (Bool-cases (has_key p.permission kept)) [
    | inl skipped ↦
        let step : revoke_dropped db redis role kept (p ∷ rows) w
            ≡ revoke_dropped db redis role kept rows w =
          rw (skipped, revoke_dropped) refl in
        subst (λ x. DiffersAt role w x.1) (sym step) (revoke_dropped-DiffersAt role kept rows w)
    | inr new ↦
        let w1 = (on_store (Repository.revoke_role_permission db role p.permission) w).1 in
        elim (Result-cases
          (on_store (Repository.revoke_role_permission db role p.permission) w).0) [
            | inr (e, failed) ↦
                let step : revoke_dropped db redis role kept (p ∷ rows) w ≡ (err e, w1) =
                  ground arith in
                subst (λ x. DiffersAt role w x.1) (sym step) (revoke-DiffersAt role p.permission w)
            | inl (u, e) ↦
                let step : revoke_dropped db redis role kept (p ∷ rows) w
                    ≡ revoke_dropped db redis role kept rows w1 =
                  ground arith in
                subst (λ x. DiffersAt role w x.1) (sym step)
                  (DiffersAt-trans role w w1 (revoke_dropped db redis role kept rows w1).1
                    (revoke-DiffersAt role p.permission w)
                    (revoke_dropped-DiffersAt role kept rows w1))
          ]
  ]

  -- The state in which a successful update deletes the cached rows.
  update_world :
      (now : Instant) (role : Text) (permissions : List Text) (w : World S R)
      → (update_role_permissions db redis now role permissions w).0 ≡ ok tt
      → (w2 : World S R) × DiffersAt role w w2
        × ((update_role_permissions db redis now role permissions w).1
            ≡ (invalidate_role_permission_cache redis role w2).1)
  unfolding update_role_permissions Repository.get_role_permissions
  update_world now role permissions w h =
      elim (Result-cases (db.select_role_permissions role w.store)) [
        | inr (e, failed) ↦ absurd (ground arith)
        | inl (existing, e) ↦
            let had = add_all (permissions_of existing) [] in
            let kept = add_all permissions [] in
            let w1 = (grant_missing db redis now role had permissions w).1 in
            let w2 = (revoke_dropped db redis role kept existing w1).1 in
            let granted : (grant_missing db redis now role had permissions w).0 ≡ ok tt =
              ground arith in
            let revoked : (revoke_dropped db redis role kept existing w1).0 ≡ ok tt =
              ground arith in
            (
              w2,
              DiffersAt-trans role w w1 w2 (grant_missing-DiffersAt now role had permissions w)
                  (revoke_dropped-DiffersAt role kept existing w1),
              ground (arith, granted, revoked),
            )
      ]

  -- Under the laws of the statements and of Redis: after a successful UpdateRolePermissions the
  -- cache agrees with the tables, if it agreed before and the DEL of the role's key does not fail.
  pub update_role_permissions-IsCoherent :
      (codec : Codec) (laws : RedisLaws redis) (now : Instant) (role : Text)
      (permissions : List Text) (w : World S R)
      → IsCoherent redis codec (auth_repository db) w
      → Deletes redis (role_cache_key role) w.redis
      → (update_role_permissions db redis now role permissions w).0 ≡ ok tt
      → IsCoherent redis codec
          (auth_repository db)
          (update_role_permissions db redis now role permissions w).1
  unfolding auth_repository Repository.get_role_permissions Repository.get_user_permissions
  update_role_permissions-IsCoherent codec laws now role permissions w h deletes done =
      let (w2, (same, roles, users), end) = update_world now role permissions w done in
      subst (λ x. IsCoherent redis codec (auth_repository db) x) (sym end)
        (subst
          (λ r.
            IsCoherent redis codec (auth_repository db)
              (invalidate_role_permission_cache redis role
                (record { store = w2.store; redis = r })).1)
          (sym same)
          (invalidate_role-IsCoherent redis codec (auth_repository db) laws role w.store w2.store
            w.redis h deletes roles users))
