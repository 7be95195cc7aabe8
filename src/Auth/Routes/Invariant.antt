-- ===== src/Auth/Routes/Invariant.antt =====
-- internal/modules/auth/handler.go: the cached rows agree with the tables however the requests to
-- the routes follow each other.
use mathlib.Core.Path.{subst}
use golang_base.Base.{
  Bool, true, false, [], ◌∷◌, some, Text, ◌≡◌, sym, ◌∙◌, ap, ◌≢◌, inl, inr, arith,
}
use golang_base.Domain.{Instant, user_cache_key, role_cache_key}
use golang_base.Domain.Errors.{Result}
use golang_base.Infra.{World}
use golang_base.Infra.Laws.{RedisLaws, CodecLaws, FrameLaws, AccountFrameLaws}
use golang_base.Auth.Module.{auth_repository}
use golang_base.Auth.Handler.{App}
use golang_base.Auth.Handler.Permissions
use golang_base.Auth.Handler.Roles
use golang_base.Auth.Routes.{Endpoint, access_of, permitted, handle, serve}
use golang_base.Auth.Routes.Cases.{login-snd, refresh_token-snd, me-snd, serve-cases}
use golang_base.Auth.Routes.Guard.{serve_permitted-cases, allowed-keeps}
use golang_base.Auth.Routes.Handlers.{
  Coherent, DelWorks, list_users-snd, get_user-snd, show_user_permissions-snd,
  show_role_permissions-snd, query_permission_changes-snd, create_role-Coherent,
  update_user-Coherent, create_user-Coherent,
}
use golang_base.Auth.Routes.Changes.{
  put_user_permission-Coherent, delete_user_permission-Coherent, put_role_permissions-Coherent,
}
use golang_base.Auth.Service.Grants.{Target, of_user, nowhere}
use golang_base.Auth.Service.Grants.Cached.{HasOneSpelling}
use golang_base.Middleware.Authentication.{auth_middleware, authenticated}
use golang_base.Middleware.Permission.{allowed_permissions}
use golang_base.Middleware.Permission.Coherence.{IsCoherent}

-- Whether a request deletes a user, and with the user, by cascade, rows that may be cached.
abbrev pub deletes_user : Endpoint → Bool
deletes_user (Endpoint.delete_users_id id) = true
deletes_user e = false

-- The user whose permissions a request changes.
abbrev pub changed_user : Endpoint → Target
changed_user (Endpoint.put_users_permission id p body q) = of_user id
changed_user (Endpoint.delete_users_permission id p q) = of_user id
changed_user e = nowhere

module _ {S R : Type 0} (app : App S R) (same_id : Text → Text → Bool) where
  abbrev IsSpelledOnce : Instant → Text → Endpoint → World S R → Type 0
  IsSpelledOnce now auth_header e w =
      (p actor : Text)
      → access_of e ≡ permitted p
      → auth_middleware app.lib app.jwt auth_header now ≡ authenticated actor
      → HasOneSpelling app.redis same_id (changed_user e)
          (allowed_permissions app.redis app.codec (some (auth_repository app.db)) (p ∷ [])
            (some actor) w).1.redis

  -- One thing that happens to the program's state: a request that is answered with another status
  -- than 500, deletes no user, and does not change a user's permissions while, once the requester
  -- has been checked, rows are cached under another spelling of the user's identifier; or Redis
  -- losing keys, whose time is over.
  pub data Step : World S R → World S R → Type 0 where
    request :
        (now : Instant) (uuid : Result Text) (auth_header : Text) (e : Endpoint) (w : World S R)
        → deletes_user e ≡ false
        → (serve app now uuid auth_header e w).0.status ≢ 500
        → IsSpelledOnce now auth_header e w
        → Step w (serve app now uuid auth_header e w).1
    expiry :
        (w : World S R) (r r' : R)
        → w.redis ≡ some r
        → ((k v : Text) → app.redis.get k r' ≡ some v → app.redis.get k r ≡ some v)
        → Step w (record w { redis = some r' })

  -- What a run of such steps leads to.
  pub data Reach (start : World S R) : World S R → Type 0 where
    here : Reach start start
    later : (u w : World S R) → Reach start u → Step u w → Reach start w

module _ {S R : Type 0} (app : App S R) (laws : AccountFrameLaws app.db) (frame : FrameLaws app.db)
    (redis_laws : RedisLaws app.redis) (codec_laws : CodecLaws app.codec) (del : DelWorks app) where
  handle-Coherent :
      (now : Instant) (uuid : Result Text) (e : Endpoint) (id : Text) (w : World S R)
      → Coherent app w
      → deletes_user e ≡ false
      → (handle app now uuid e id w).0.status ≢ 500
      → HasOneSpelling app.redis frame.same_id (changed_user e) w.redis
      → Coherent app (handle app now uuid e id w).1
  unfolding handle Permissions.show_permission_list Permissions.show_permission_matrix
      Roles.list_roles
  handle-Coherent now uuid (Endpoint.post_login body) id w h d s single =
      subst (Coherent app) (sym (login-snd app now body w)) h
  handle-Coherent now uuid (Endpoint.post_refresh body) id w h d s single =
      subst (Coherent app) (sym (refresh_token-snd app now body w)) h
  handle-Coherent now uuid Endpoint.get_me id w h d s single =
      subst (Coherent app) (sym (me-snd app now id w)) h
  handle-Coherent now uuid (Endpoint.post_users body) id w h d s single =
      create_user-Coherent app laws now uuid id body w h
  handle-Coherent now uuid (Endpoint.get_users filter q) id w h d s single =
      subst (Coherent app) (sym (list_users-snd app now w filter q)) h
  handle-Coherent now uuid (Endpoint.get_users_id other) id w h d s single =
      subst (Coherent app) (sym (get_user-snd app now w other)) h
  handle-Coherent now uuid (Endpoint.patch_users_id other body) id w h d s single =
      update_user-Coherent app laws now id other body w h
  handle-Coherent now uuid (Endpoint.delete_users_id other) id w h d s single = cc
  handle-Coherent now uuid (Endpoint.get_users_permissions other) id w h d s single =
      subst (Coherent app) (sym (show_user_permissions-snd app now w other)) h
  handle-Coherent now uuid (Endpoint.put_users_permission other p body q) id w h d s single =
      put_user_permission-Coherent app frame redis_laws del now uuid id other p body q w h single
  handle-Coherent now uuid (Endpoint.delete_users_permission other p q) id w h d s single =
      delete_user_permission-Coherent app frame redis_laws del now uuid id other p q w h single
  handle-Coherent now uuid (Endpoint.post_roles body) id w h d s single =
      create_role-Coherent app laws now body w h
  handle-Coherent now uuid Endpoint.get_roles id w h d s single = h
  handle-Coherent now uuid (Endpoint.get_roles_permissions role) id w h d s single =
      subst (Coherent app) (sym (show_role_permissions-snd app now w role)) h
  handle-Coherent now uuid (Endpoint.put_roles_permissions role body) id w h d s single =
      put_role_permissions-Coherent app frame redis_laws del now role body w h s
  handle-Coherent now uuid Endpoint.get_permissions_matrix id w h d s single = h
  handle-Coherent now uuid Endpoint.get_permissions_list id w h d s single = h
  handle-Coherent now uuid (Endpoint.get_permission_changes query q) id w h d s single =
      subst (Coherent app) (sym (query_permission_changes-snd app now w query q)) h

  serve-Coherent :
      (now : Instant) (uuid : Result Text) (auth_header : Text) (e : Endpoint) (w : World S R)
      → Coherent app w
      → deletes_user e ≡ false
      → (serve app now uuid auth_header e w).0.status ≢ 500
      → IsSpelledOnce app frame.same_id now auth_header e w
      → Coherent app (serve app now uuid auth_header e w).1
  serve-Coherent now uuid auth_header e w h kept served spelled =
      elim (serve-cases app now uuid auth_header e w) [
        | inl same ↦ subst (Coherent app) (sym same) h
        | inr (p, id, guarded, valid, step) ↦
            let (store, h') = allowed-keeps app redis_laws codec_laws p id w h in
            elim (serve_permitted-cases app redis_laws codec_laws now uuid p e id w) [
              | inr refused ↦ subst (Coherent app) (sym (ap (λ x. x.1) step ∙ refused)) h'
              | inl (go, same) ↦ subst (Coherent app) (sym (ap (λ x. x.1) (step ∙ same))) (
                  handle-Coherent now uuid e id _ h' kept
                    (λ bad. served (ap (λ x. x.0.status) (step ∙ same) ∙ bad))
                    (spelled p id guarded valid))
            ]
      ]

  Step-Coherent : (u w : World S R) → Coherent app u → Step app frame.same_id u w → Coherent app w
  Step-Coherent u w h (request now uuid auth_header e u' kept served spelled) =
      serve-Coherent now uuid auth_header e u h kept served spelled
  Step-Coherent u w h (expiry u' r r' e fewer) = record {
    roles = λ role b rows found parsed.
        h.roles role b rows (ground (arith, fewer (role_cache_key role) b found)) parsed;
    users = λ id b rows found parsed.
        h.users id b rows (ground (arith, fewer (user_cache_key id) b found)) parsed;
  }

  -- Under the laws of the statements, of Redis and of the codec, and if no DEL fails: whatever
  -- sequence of requests and expiries follows a state in which the cached rows agree with the
  -- tables, they agree at its end. Left out are the requests answered with 500, the deletions of
  -- users, and the changes of a user's permissions that come while rows are cached under another
  -- spelling of the user's UUID.
  pub Reach-IsCoherent :
      (start w : World S R)
      → IsCoherent app.redis app.codec (auth_repository app.db) start
      → Reach app frame.same_id start w
      → IsCoherent app.redis app.codec (auth_repository app.db) w
  Reach-IsCoherent start w h here = h
  Reach-IsCoherent start w h (later u w' path step) =
      Step-Coherent u w (Reach-IsCoherent start u h path) step
