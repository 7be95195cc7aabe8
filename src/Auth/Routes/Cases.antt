-- ===== src/Auth/Routes/Cases.antt =====
-- internal/modules/auth/handler.go: which requests leave everything as it is, and which go through
-- AllowedPermissions.
use golang_base.Base.{Option, none, some, [], ◌∷◌, Text, ◌≡◌, refl, ◌≢◌, ◌⊎◌, inl, inr, arith}
use golang_base.Domain.{Instant}
use golang_base.Domain.Errors.{Result}
use golang_base.Infra.{World}
use golang_base.Auth.Handler.{App, LoginRequest}
use golang_base.Auth.Handler.Sessions
use golang_base.Auth.Handler.Permissions
use golang_base.Auth.Routes.{
  Endpoint, Access, public, signed_in, permitted, access_of, handle, serve_permitted, behind_auth,
  serve,
}
use golang_base.Middleware.Authentication.{Authentication, auth_middleware, authenticated}

module _ {S R : Type 0} (app : App S R) (now : Instant) where
  pub login-snd :
      (body : Option LoginRequest) (w : World S R) → (Sessions.login app now body w).1 ≡ w
  unfolding Sessions.login
  login-snd none w = refl
  login-snd (some req) w = ground arith

  pub refresh_token-snd :
      (body : Option Text) (w : World S R) → (Sessions.refresh_token app now body w).1 ≡ w
  unfolding Sessions.refresh_token
  refresh_token-snd none w = refl
  refresh_token-snd (some []) w = refl
  refresh_token-snd (some (c ∷ cs)) w = ground arith

  pub me-snd : (id : Text) (w : World S R) → (Sessions.me app now id w).1 ≡ w
  unfolding Sessions.me
  me-snd id w = ground arith

  -- The handlers that stand behind no permission leave everything as it is.
  handle-free :
      (uuid : Result Text) (e : Endpoint) (id : Text) (w : World S R)
      → ((p : Text) → access_of e ≢ permitted p)
      → (handle app now uuid e id w).1 ≡ w
  unfolding handle access_of Permissions.show_permission_list
  handle-free uuid (Endpoint.post_login body) id w h = login-snd body w
  handle-free uuid (Endpoint.post_refresh body) id w h = refresh_token-snd body w
  handle-free uuid Endpoint.get_me id w h = me-snd id w
  handle-free uuid Endpoint.get_permissions_list id w h = refl
  handle-free uuid e id w h = absurd (h _ refl)

pub Access-cases :
    (a : Access) → (a ≡ public) ⊎ ((a ≡ signed_in) ⊎ ((p : Text) × (a ≡ permitted p)))
Access-cases public = inl refl
Access-cases signed_in = inr (inl refl)
Access-cases (permitted p) = inr (inr (p, refl))

Authentication-cases :
    (a : Authentication)
    → ((id : Text) × (a ≡ authenticated id)) ⊎ ((m : Text) × (a ≡ Authentication.unauthorized m))
Authentication-cases (authenticated id) = inl (id, refl)
Authentication-cases (Authentication.unauthorized m) = inr (m, refl)

module _ {S R : Type 0} (app : App S R) (now : Instant) (uuid : Result Text) where
  behind_auth-free :
      (auth_header : Text) (e : Endpoint) (w : World S R)
      → ((p : Text) → access_of e ≢ permitted p)
      → (behind_auth app now auth_header (handle app now uuid e) w).1 ≡ w
  unfolding behind_auth
  behind_auth-free auth_header e w h =
      elim (Authentication-cases (auth_middleware app.lib app.jwt auth_header now)) [
        | inr (m, stop) ↦ rw (stop, behind_auth) refl
        | inl (id, valid) ↦ rw (valid, behind_auth) (handle-free app now uuid e id w h)
      ]

  -- A request leaves everything as it is, or it goes through AllowedPermissions.
  pub serve-cases :
      (auth_header : Text) (e : Endpoint) (w : World S R)
      → ((serve app now uuid auth_header e w).1 ≡ w)
        ⊎ ((p : Text) × (user_id : Text) × (access_of e ≡ permitted p)
            × (auth_middleware app.lib app.jwt auth_header now ≡ authenticated user_id)
            × (serve app now uuid auth_header e w ≡ serve_permitted app now uuid p e user_id w))
  unfolding serve behind_auth
  serve-cases auth_header e w = elim (Access-cases (access_of e)) [
    | inl free ↦ inl (rw (free, serve) (handle-free app now uuid e [] w (λ p g. ground arith)))
    | inr (inl free) ↦
        inl (rw (free, serve) (behind_auth-free auth_header e w (λ p g. ground arith)))
    | inr (inr (p, guarded)) ↦
        elim (Authentication-cases (auth_middleware app.lib app.jwt auth_header now)) [
          | inr (m, stop) ↦ inl (rw (guarded, serve) (rw (stop, behind_auth) refl))
          | inl (user_id, valid) ↦
              inr (p, user_id, guarded, valid, rw (guarded, serve) (rw (valid, behind_auth) refl))
        ]
  ]
