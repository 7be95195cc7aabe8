-- ===== src/Auth/Service/Accounts/Tokens.antt =====
-- internal/modules/auth/service.go and internal/middleware/auth.go: what the tokens of a login are
-- good for.
use golang_base.Base.{
  ◌+◌, ◌*◌, true, some, ◌++◌, Text, codes, ◌==◌, has_prefix, drop_bytes, ltb, if◌then◌else◌, ◌≡◌,
  refl, arith, inl, inr, Bool-cases, Option-cases,
}
use golang_base.Domain.{Instant, User}
use golang_base.Domain.Errors.{invalid_credentials, ok, err, Result-cases}
use golang_base.Infra.{Database}
use golang_base.Pkg.Jwt.{
  Jwt, JwtLibrary, JwtLaws, minute, hour, generate_access_token, generate_refresh_token,
  validate_token, access_claims, refresh_claims, validate-generate_access,
  validate-generate_refresh,
}
use golang_base.Auth.Repository
use golang_base.Auth.Service.Accounts.{Bcrypt, Session, open_session, login, refresh_token}
use golang_base.Middleware.Authentication.{authenticated, unauthorized, auth_middleware}

-- A header that is "Bearer " and a token.
bearer :
    (lib : JwtLibrary) (j : Jwt) (token : Text) (now : Instant)
    → auth_middleware lib j (codes "Bearer " ++ token) now
      ≡ (elim (validate_token lib j token now) [
        | err e ↦ unauthorized (codes "invalid or expired token")
        | ok claims ↦ authenticated claims.user_id
      ])
unfolding auth_middleware has_prefix drop_bytes ◌==◌
bearer lib j token now = refl

module _ {S : Type 0} (db : Database S) (bcrypt : Bcrypt) (lib : JwtLibrary) (j : Jwt) where
  -- The tokens of a session are those that were generated for its user.
  open_session_lem :
      (now : Instant) (user : User) (session : Session)
      → open_session lib j now user ≡ ok session
      → (generate_access_token lib j user.id now ≡ ok session.access_token)
        × (generate_refresh_token lib j user.id now ≡ ok session.refresh_token)
        × (session.user ≡ user)
  unfolding open_session
  open_session_lem now user session h =
      elim (Result-cases (generate_access_token lib j user.id now)) [
        | inr (e, failed) ↦ absurd (ground arith)
        | inl (access, a) ↦ elim (Result-cases (generate_refresh_token lib j user.id now)) [
          | inr (e, failed) ↦ absurd (ground arith)
          | inl (refresh, r) ↦ ground arith
        ]
      ]

  -- A login succeeds only for a user whom the repository finds under the address, who has a
  -- password hash that agrees with the password; its tokens are those generated for this user.
  pub login_lem :
      (now : Instant) (email password : Text) (s : S) (session : Session)
      → login lib j db bcrypt now email password s ≡ ok session
      → (hash : Text) × (Repository.get_user_by_email db email s ≡ ok session.user)
        × (session.user.password ≡ some hash)
        × (bcrypt.compare hash password ≡ true)
        × (generate_access_token lib j session.user.id now ≡ ok session.access_token)
        × (generate_refresh_token lib j session.user.id now ≡ ok session.refresh_token)
  unfolding login
  login_lem now email password s session h =
      elim (Result-cases (Repository.get_user_by_email db email s)) [
        | inr (e, failed) ↦ absurd (ground arith)
        | inl (user, found) ↦ elim (Option-cases user.password) [
          | inl absent ↦ absurd (ground arith)
          | inr (hash, known) ↦ elim (Bool-cases (bcrypt.compare hash password)) [
            | inr wrong ↦ absurd (ground arith)
            | inl right ↦
                let (access, refresh, same) = open_session_lem now user session (ground arith) in
                rw same (hash, found, known, right, access, refresh)
          ]
        ]
      ]

  module _ (laws : JwtLaws lib) where
    -- Under the laws of the jwt library, after a login whose user's identifier is UTF-8: a request
    -- with the access token as bearer is authenticated as this user until the token expires, and
    -- answered with 401 from then on.
    pub auth_middleware-login :
        (now later : Instant) (email password : Text) (s : S) (session : Session)
        → login lib j db bcrypt now email password s ≡ ok session
        → lib.is_utf8 session.user.id ≡ true
        → auth_middleware lib j (codes "Bearer " ++ session.access_token) later ≡ (
            if ltb later (lib.numeric_date (now + j.access_expire_min * minute))
            then authenticated session.user.id
            else unauthorized (codes "invalid or expired token"))
    unfolding access_claims
    auth_middleware-login now later email password s session h utf8 =
        let (hash, found, known, right, access, refresh) =
          login_lem now email password s session h in
        let checked =
          validate-generate_access lib laws j session.user.id session.access_token now later utf8
            access in
        elim (Bool-cases (ltb later (lib.numeric_date (now + j.access_expire_min * minute)))) [
          | inl fresh ↦ rw bearer (ground (arith, checked, fresh))
          | inr stale ↦ rw bearer (ground (arith, checked, stale))
        ]

    -- Under the laws of the jwt library, after a login whose user's identifier is UTF-8:
    -- RefreshToken on the refresh token gives a new access token of this user until the refresh
    -- token expires, and fails with invalid credentials from then on.
    pub refresh_token-login :
        (now later : Instant) (email password : Text) (s : S) (session : Session)
        → login lib j db bcrypt now email password s ≡ ok session
        → lib.is_utf8 session.user.id ≡ true
        → refresh_token lib j later session.refresh_token ≡ (
            if ltb later (lib.numeric_date (now + j.refresh_expire_day * 24 * hour))
            then generate_access_token lib j session.user.id later
            else err invalid_credentials)
    unfolding refresh_token refresh_claims
    refresh_token-login now later email password s session h utf8 =
        let (hash, found, known, right, access, refresh) =
          login_lem now email password s session h in
        let checked =
          validate-generate_refresh lib laws j session.user.id session.refresh_token now later utf8
            refresh in
        elim (Bool-cases (ltb later (lib.numeric_date (now + j.refresh_expire_day * 24 * hour)))) [
          | inl fresh ↦ ground (arith, checked, fresh)
          | inr stale ↦ ground (arith, checked, stale)
        ]

    -- Under the laws of the jwt library, after a login whose user's identifier is UTF-8: until the
    -- access token expires RefreshToken takes it too, and answers as it does for a refresh token of
    -- this user.
    pub refresh_token-access :
        (now later : Instant) (email password : Text) (s : S) (session : Session)
        → login lib j db bcrypt now email password s ≡ ok session
        → lib.is_utf8 session.user.id ≡ true
        → ltb later (lib.numeric_date (now + j.access_expire_min * minute)) ≡ true
        → refresh_token lib j later session.access_token
          ≡ generate_access_token lib j session.user.id later
    unfolding refresh_token access_claims
    refresh_token-access now later email password s session h utf8 fresh =
        let (hash, found, known, right, access, refresh) =
          login_lem now email password s session h in
        let checked =
          validate-generate_access lib laws j session.user.id session.access_token now later utf8
            access in
        ground (arith, checked, fresh)
