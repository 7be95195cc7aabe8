-- ===== src/Auth/Routes/Guard.antt =====
-- Who can change the tables through the routes of internal/modules/auth/handler.go.
use golang_base.Base.{
  ℕ, ◌||◌, contains, any, some, List, [], ◌∷◌, Text, codes, ◌≡◌, refl, ◌∙◌, ap, ◌≢◌, ◌⊎◌, inl, inr,
  arith, Bool-cases,
}
use golang_base.Domain.{Instant, role_super_admin, User}
use golang_base.Domain.Errors.{Result, ok, Result-cases}
use golang_base.Infra.{World}
use golang_base.Infra.Laws.{RedisLaws, CodecLaws}
use golang_base.Pkg.Response
use golang_base.Auth.Repository
use golang_base.Auth.Module.{auth_repository}
use golang_base.Auth.Handler.{App}
use golang_base.Auth.Routes.{
  Endpoint, permitted, access_of, handle, serve_permitted, behind_auth, serve,
}
use golang_base.Middleware.Authentication.{auth_middleware, authenticated}
use golang_base.Middleware.Permission.{
  CachedAuthRepository, Decision, allowed_permissions, check_access, next, unauthorized, forbidden,
}
use golang_base.Middleware.Permission.Coherence.{IsCoherent}
use golang_base.Middleware.Permission.Access.{
  role_passes, user_passes, check_access-decision, decision,
}
use golang_base.Middleware.Permission.Passing.{MayPass, check_access-MayPass}
use golang_base.Auth.Routes.Cases.{serve-cases}

decision-known :
    {S : Type 0} (repo : CachedAuthRepository S) (patterns : List Text) (c : ℕ) (cs : Text)
    (user : User) (s : S)
    → repo.get_user_by_id (c ∷ cs) s ≡ ok user
    → (decision repo patterns (some (c ∷ cs)) s ≡ next)
      ⊎ (decision repo patterns (some (c ∷ cs)) s ≡ forbidden (codes "insufficient permissions"))
unfolding decision
decision-known repo patterns c cs user s found =
    elim (Bool-cases (
      contains role_super_admin user.roles
      || (any (role_passes repo patterns s) user.roles || user_passes repo patterns (c ∷ cs) s))) [
        | inl go ↦ inl (rw (found, decision) (rw go refl))
        | inr stop ↦ inr (rw (found, decision) (rw stop refl))
      ]

Decision-cases :
    (d : Decision)
    → (d ≡ next) ⊎ (((m : Text) × (d ≡ unauthorized m)) ⊎ ((m : Text) × (d ≡ forbidden m)))
Decision-cases next = inl refl
Decision-cases (unauthorized m) = inr (inl (m, refl))
Decision-cases (forbidden m) = inr (inr (m, refl))

module _ {S R : Type 0} (app : App S R) (redis_laws : RedisLaws app.redis)
    (codec_laws : CodecLaws app.codec) where
  -- A request that AllowedPermissions lets through is that of a user who may pass.
  pub passed-MayPass :
      (p user_id : Text) (w : World S R)
      → IsCoherent app.redis app.codec (auth_repository app.db) w
      → (allowed_permissions app.redis app.codec
          (some (auth_repository app.db))
          (p ∷ [])
          (some user_id)
          w).0
        ≡ next
      → (user : User) × (Repository.get_user_by_id app.db user_id w.store ≡ ok user)
        × MayPass (auth_repository app.db) (p ∷ []) user_id user w.store
  unfolding allowed_permissions check_access auth_repository
  passed-MayPass p [] w h passed = absurd (ground arith)
  passed-MayPass p (c ∷ cs) w h passed =
      elim (Result-cases (Repository.get_user_by_id app.db (c ∷ cs) w.store)) [
        | inr (e, failed) ↦ absurd (ground arith)
        | inl (user, found) ↦ (
          user,
          found,
          (check_access-MayPass app.redis app.codec (auth_repository app.db) redis_laws codec_laws
                (p ∷ []) c cs user w h found).0
              passed,
        )
      ]

  -- The middleware itself changes no table and keeps the cache coherent.
  pub allowed-keeps :
      (p user_id : Text) (w : World S R)
      → IsCoherent app.redis app.codec (auth_repository app.db) w
      → let w' =
          (allowed_permissions app.redis app.codec
            (some (auth_repository app.db))
            (p ∷ [])
            (some user_id)
            w).1 in
        (w'.store ≡ w.store) × IsCoherent app.redis app.codec (auth_repository app.db) w'
  unfolding allowed_permissions
  allowed-keeps p user_id w h =
      let (same, store, coherent) =
        check_access-decision app.redis app.codec (auth_repository app.db) redis_laws codec_laws
          (p ∷ []) (some user_id) w h in
      (store, coherent)

  module _ (now : Instant) (uuid : Result Text) where
    -- How AllowedPermissions and the handler behind it end.
    pub serve_permitted-cases :
        (p : Text) (e : Endpoint) (user_id : Text) (w : World S R)
        → let passed =
            allowed_permissions app.redis app.codec
              (some (auth_repository app.db))
              (p ∷ [])
              (some user_id)
              w in
          ((passed.0 ≡ next)
            × (serve_permitted app now uuid p e user_id w ≡ handle app now uuid e user_id passed.1))
          ⊎ ((serve_permitted app now uuid p e user_id w).1 ≡ passed.1)
    unfolding serve_permitted
    serve_permitted-cases p e user_id w =
        let passed =
          allowed_permissions app.redis app.codec (some (auth_repository app.db)) (p ∷ [])
            (some user_id) w in
        elim (Decision-cases passed.0) [
          | inl go ↦ inl (go, rw (go, serve_permitted) refl)
          | inr (inl (m, stop)) ↦ inr (rw (stop, serve_permitted) refl)
          | inr (inr (m, stop)) ↦ inr (rw (stop, serve_permitted) refl)
        ]

    -- Under the laws of Redis and of the codec, with a coherent cache: if a request changes the
    -- tables, its route asks for a permission, its token is valid, the token's user exists, and
    -- that user passes the check of the permission on the rows of the tables.
    pub serve-changes :
        (auth_header : Text) (e : Endpoint) (w : World S R)
        → IsCoherent app.redis app.codec (auth_repository app.db) w
        → (serve app now uuid auth_header e w).1.store ≢ w.store
        → (p : Text) × (user_id : Text) × (user : User) × (access_of e ≡ permitted p)
          × (auth_middleware app.lib app.jwt auth_header now ≡ authenticated user_id)
          × (Repository.get_user_by_id app.db user_id w.store ≡ ok user)
          × MayPass (auth_repository app.db) (p ∷ []) user_id user w.store
    serve-changes auth_header e w h changed = elim (serve-cases app now uuid auth_header e w) [
      | inl same ↦ absurd (changed (ap (λ x. x.store) same))
      | inr (p, user_id, guarded, valid, step) ↦ elim (serve_permitted-cases p e user_id w) [
        | inr refused ↦ absurd (
            changed (
              ap (λ x. x.1.store) step
              ∙ ap (λ x. x.store) refused
              ∙ (allowed-keeps p user_id w h).0))
        | inl (go, same) ↦
            let (user, found, may) = passed-MayPass p user_id w h go in
            (p, user_id, user, guarded, valid, found, may)
      ]
    ]

    -- Under the laws of Redis and of the codec, with a coherent cache: the request of a known user,
    -- whose token is valid, to a route that asks for a permission is answered with 403 and changes
    -- no table, unless the user passes the check of the permission on the rows of the tables.
    pub serve-forbidden :
        (auth_header p : Text) (e : Endpoint) (c : ℕ) (cs : Text) (user : User) (w : World S R)
        → IsCoherent app.redis app.codec (auth_repository app.db) w
        → access_of e ≡ permitted p
        → auth_middleware app.lib app.jwt auth_header now ≡ authenticated (c ∷ cs)
        → Repository.get_user_by_id app.db (c ∷ cs) w.store ≡ ok user
        → ¬ MayPass (auth_repository app.db) (p ∷ []) (c ∷ cs) user w.store
        → ((serve app now uuid auth_header e w).0.status ≡ 403)
          × ((serve app now uuid auth_header e w).1.store ≡ w.store)
    unfolding serve behind_auth serve_permitted allowed_permissions auth_repository decision
        Response.forbidden
    serve-forbidden auth_header p e c cs user w h guarded valid found may_not =
        let repo = auth_repository app.db in
        let passes =
          check_access-MayPass app.redis app.codec repo redis_laws codec_laws (p ∷ []) c cs user w h
            found in
        let (same, store, coherent) =
          check_access-decision app.redis app.codec repo redis_laws codec_laws (p ∷ [])
            (some (c ∷ cs)) w h in
        let step : serve app now uuid auth_header e w
            ≡ serve_permitted app now uuid p e (c ∷ cs) w =
          rw (guarded, serve) (rw (valid, behind_auth) refl) in
        let stop : (check_access app.redis app.codec repo (p ∷ []) (some (c ∷ cs)) w).0
            ≡ forbidden (codes "insufficient permissions") =
          elim (decision-known repo (p ∷ []) c cs user w.store found) [
            | inl go ↦ absurd (may_not (passes.0 (same ∙ go)))
            | inr no_go ↦ same ∙ no_go
          ] in
        (
          ap (λ x. x.0.status) step ∙ rw (stop, serve_permitted) refl,
          ap (λ x. x.1.store) step ∙ (rw (stop, serve_permitted) store),
        )
