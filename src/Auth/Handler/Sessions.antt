-- ===== src/Auth/Handler/Sessions.antt =====
-- internal/modules/auth/handler.go: registration (its route is disabled), login, refresh, me.
use golang_base.Base.{Option, none, some, [], ◌∷◌, Text, codes, if◌then◌else◌}
use golang_base.Domain.{Instant}
use golang_base.Domain.Errors.{is_user_exists, is_invalid_credentials, Result, ok, err}
use golang_base.Pkg.Response.{
  ok_response, created, bad_request, bad_request_validation, unauthorized, not_found,
  internal_error,
}
use golang_base.Pkg.Validator.{validate_struct}
use golang_base.Auth.Dto.{new_auth_response, to_user_response, to_user_response_with_permissions}
use golang_base.Auth.Service.Accounts
use golang_base.Auth.Service.Accounts.{Session}
use golang_base.Auth.Handler.{
  App, Handler, Payload, session_view, token_view, user_view, RegisterRequest, LoginRequest,
  default_roles, permissions_or_empty,
}

module _ {S R : Type 0} (app : App S R) where
  unfoldable pub register : Instant → Result Text → Option RegisterRequest → Handler S R
  register now uuid none w = (bad_request (codes "invalid request body"), w)
  register now uuid (some req) w = elim (validate_struct (app.register_errors req)) [
    | e ∷ es ↦ (bad_request_validation (e ∷ es), w)
    | [] ↦
        let (made, s') =
          Accounts.register app.db app.integrity_violation app.bcrypt now uuid
            (record {
              email = req.email;
              password = req.password;
              name = req.name;
              roles = default_roles req.roles;
            })
            w.store in
        let w' = record w { store = s' } in
        elim made [
          | ok user ↦ (created (user_view (to_user_response app.format (some user))), w')
          | err e ↦
              if is_user_exists e
              then (bad_request (codes "user already exists"), w')
              else (internal_error (codes "internal server error"), w')
        ]
  ]

  -- The content of a login's response: the tokens, and the user with the computed permissions.
  unfoldable pub session_content : Instant → Session → S → Payload
  session_content now session s = session_view (
      new_auth_response session.access_token session.refresh_token (
        some (
          to_user_response_with_permissions app.format (some session.user)
            (permissions_or_empty app.db now session.user.id session.user.roles s))))

  unfoldable pub login : Instant → Option LoginRequest → Handler S R
  login now none w = (bad_request (codes "invalid request body"), w)
  login now (some req) w = elim (validate_struct (app.login_errors req)) [
    | e ∷ es ↦ (bad_request_validation (e ∷ es), w)
    | [] ↦
        elim (Accounts.login app.lib app.jwt app.db app.bcrypt now req.email req.password w.store) [
          | ok session ↦ (ok_response (session_content now session w.store), w)
          | err e ↦
              if is_invalid_credentials e
              then (unauthorized (codes "invalid email or password"), w)
              else (internal_error (codes "internal server error"), w)
        ]
  ]

  unfoldable pub refresh_token : Instant → Option Text → Handler S R
  refresh_token now none w = (bad_request (codes "invalid request body"), w)
  refresh_token now (some []) w = (bad_request (codes "refresh token is required"), w)
  refresh_token now (some (c ∷ cs)) w = elim (Accounts.refresh_token app.lib app.jwt now (c ∷ cs)) [
    | err e ↦ (unauthorized (codes "invalid refresh token"), w)
    | ok access ↦ (ok_response (token_view access (codes "Bearer") 900), w)
  ]

  unfoldable pub me : Instant → Text → Handler S R
  me now user_id w = elim (Accounts.get_user app.db user_id w.store) [
    | err e ↦ (not_found (codes "user not found"), w)
    | ok user ↦ (
      ok_response (
          user_view (
            to_user_response_with_permissions app.format (some user)
              (permissions_or_empty app.db now user.id user.roles w.store))),
      w,
    )
  ]
