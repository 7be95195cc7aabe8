-- ===== src/Auth/Routes/Changes.antt =====
-- internal/modules/auth/handler.go: the changes of permissions keep the cached rows in agreement
-- with the tables.
use golang_base.Base.{
  false, Option, none, some, List, [], ◌∷◌, Text, codes, ◌==◌, ◌≡◌, refl, sym, ◌≢◌, ◌⊎◌, inl, inr,
  arith,
}
use mathlib.Core.Path.{subst}
use golang_base.Domain.{Instant, user_cache_key, role_cache_key}
use golang_base.Auth.Service.Grants.{PermissionChange, of_user, target_of}
use golang_base.Domain.Errors.{Result, Result-cases}
use golang_base.Infra.{World}
use golang_base.Infra.Laws.{RedisLaws, FrameLaws}
use golang_base.Pkg.Response.{internal_error}
use golang_base.Auth.Service.Grants
use golang_base.Auth.Service.Grants.Invalidation.{Deletes}
use golang_base.Auth.Service.Grants.Cached.{
  HasOneSpelling, grant_user_permission-IsCoherent, revoke_user_permission-IsCoherent,
}
use golang_base.Auth.Service.Grants.CachedUpdate.{update_role_permissions-IsCoherent}
use golang_base.Auth.Handler.{App, nonempty, UserPermissionRequest, Extras}
use golang_base.Auth.Handler.Roles
use golang_base.Auth.Handler.Permissions
use golang_base.Auth.Routes.Handlers.{Coherent, DelWorks}

sum-cases : {A B : Type 0} (x : A ⊎ B) → ((a : A) × (x ≡ inl a)) ⊎ ((b : B) × (x ≡ inr b))
sum-cases (inl a) = inl (a, refl)
sum-cases (inr b) = inr (b, refl)

module _ {S R : Type 0} (app : App S R) where
  module _ (frame : FrameLaws app.db) (redis_laws : RedisLaws app.redis) (del : DelWorks app) where
    deletes : (k : Text) (r : Option R) → Deletes app.redis k r
    deletes k none = tt
    deletes k (some r) = del k r

    put_override-Coherent :
        (now : Instant) (uuid : Result Text) (actor id p : Text) (req : UserPermissionRequest)
        (q : Extras) (until : Option Instant) (w : World S R)
        → Coherent app w
        → HasOneSpelling app.redis frame.same_id (of_user id) w.redis
        → Coherent app (Permissions.put_override app now uuid actor id p req q until w).1
    unfolding Permissions.put_override target_of ◌==◌
    put_override-Coherent now uuid actor id p req q until w h single =
        let c : PermissionChange = record {
          target_type = codes "user_permission";
          target_role = none;
          target_user_id = some id;
          permission = p;
          is_granted = Permissions.granted_of req.granted q.granted;
          expires_at = until;
          actor_id = actor;
          reason = Permissions.text_or_query req.reason q.reason;
          ip_address = some q.ip;
          user_agent = some q.user_agent;
        } in
        let same : (Permissions.put_override app now uuid actor id p req q until w).1
            ≡ (Grants.grant_user_permission app.db app.redis now uuid c w).1 =
          ground arith in
        subst (Coherent app) (sym same) (
          grant_user_permission-IsCoherent app.db app.redis app.codec frame redis_laws now uuid c w
            h (deletes (user_cache_key id) w.redis) single)

    pub put_user_permission-Coherent :
        (now : Instant) (uuid : Result Text) (actor id p : Text) (req : UserPermissionRequest)
        (q : Extras) (w : World S R)
        → Coherent app w
        → HasOneSpelling app.redis frame.same_id (of_user id) w.redis
        → Coherent app (Permissions.put_user_permission app now uuid actor id p req q w).1
    unfolding Permissions.put_user_permission
    put_user_permission-Coherent now uuid actor id [] req q w h single = h
    put_user_permission-Coherent now uuid actor id (c ∷ cs) req q w h single =
        elim (sum-cases (
          Permissions.parse_expires_at app.parse_time
            (Permissions.text_or_query req.expires_at q.expires_at))) [
              | inl (m, wrong) ↦
                  let same : (Permissions.put_user_permission app now uuid actor id (c ∷ cs) req q
                        w).1
                      ≡ w =
                    rw (wrong, Permissions.put_user_permission) refl in
                  subst (Coherent app) (sym same) h
              | inr (until, right) ↦
                  let step : Permissions.put_user_permission app now uuid actor id (c ∷ cs) req q w
                      ≡ Permissions.put_override app now uuid actor id (c ∷ cs) req q until w =
                    rw (right, Permissions.put_user_permission) refl in
                  subst (λ x. Coherent app x.1) (sym step)
                    (put_override-Coherent now uuid actor id (c ∷ cs) req q until w h single)
            ]

    pub delete_user_permission-Coherent :
        (now : Instant) (uuid : Result Text) (actor id p : Text) (q : Extras) (w : World S R)
        → Coherent app w
        → HasOneSpelling app.redis frame.same_id (of_user id) w.redis
        → Coherent app (Permissions.delete_user_permission app now uuid actor id p q w).1
    unfolding Permissions.delete_user_permission target_of ◌==◌
    delete_user_permission-Coherent now uuid actor id [] q w h single = h
    delete_user_permission-Coherent now uuid actor id (x ∷ xs) q w h single =
        let c : PermissionChange = record {
          target_type = codes "user_permission";
          target_role = none;
          target_user_id = some id;
          permission = x ∷ xs;
          is_granted = false;
          expires_at = none;
          actor_id = actor;
          reason = nonempty q.reason;
          ip_address = some q.ip;
          user_agent = some q.user_agent;
        } in
        let same : (Permissions.delete_user_permission app now uuid actor id (x ∷ xs) q w).1
            ≡ (Grants.revoke_user_permission app.db app.redis now uuid c w).1 =
          ground arith in
        subst (Coherent app) (sym same) (
          revoke_user_permission-IsCoherent app.db app.redis app.codec frame redis_laws now uuid c w
            h (deletes (user_cache_key id) w.redis) single)

    pub put_role_permissions-Coherent :
        (now : Instant) (role : Text) (body : Option (List Text)) (w : World S R)
        → Coherent app w
        → (Roles.put_role_permissions app now role body w).0.status ≢ 500
        → Coherent app (Roles.put_role_permissions app now role body w).1
    unfolding Roles.put_role_permissions internal_error
    put_role_permissions-Coherent now role none w h served = h
    put_role_permissions-Coherent now role (some perms) w h served =
        elim (Result-cases (Grants.update_role_permissions app.db app.redis now role perms w).0) [
          | inr (e, failed) ↦ absurd (served (rw (failed, Roles.put_role_permissions) refl))
          | inl (u, done) ↦
              let same : (Roles.put_role_permissions app now role (some perms) w).1
                  ≡ (Grants.update_role_permissions app.db app.redis now role perms w).1 =
                ground arith in
              subst (Coherent app) (sym same) (
                update_role_permissions-IsCoherent app.db app.redis frame app.codec redis_laws now
                  role perms w h (deletes (role_cache_key role) w.redis) done)
        ]
