-- ===== src/Pkg/Socketio/Agreement.antt =====
-- internal/pkg/socketio/auth.go and internal/middleware/auth.go: the two checks of a bearer token.
use golang_base.Base.{
  ℕ, Bool, true, false, none, some, [], ◌∷◌, ◌++◌, Text, codes, ◌==◌, lookup, has_prefix,
  drop_bytes, ◌≡◌, refl, arith, inl, inr, Option-cases,
}
use golang_base.Base.Space.{trim_space}
use golang_base.Domain.{Instant}
use golang_base.Domain.Errors.{Error, Result, ok, err, Result-cases}
use golang_base.Pkg.Jwt.{Claims, Token, Jwt, JwtLibrary, hmac_key, validate_token}
use golang_base.Pkg.Socketio.{
  Handshake, clean_bearer, first_under, or_else, auth_token, extract_token, socket_key, filled,
  check_token, authenticate_handshake,
}
use golang_base.Middleware.Authentication.{authenticated, auth_middleware}

-- Parsing succeeds alike with two key functions that give the same key to HMAC and an error to any
-- other method.
pub record KeyLaw (lib : JwtLibrary) : Type 0 where
  pub parse_key :
      (token : Text) (key key' : Bool → Result Text) (now : Instant) (parsed : Token) (e e' : Error)
      → key false ≡ err e
      → key' false ≡ err e'
      → key' true ≡ key true
      → lib.parse token key now ≡ ok parsed
      → lib.parse token key' now ≡ ok parsed

bearer_token :
    (t : Text)
    → trim_space (codes "Bearer " ++ t) ≡ codes "Bearer " ++ t
    → trim_space t ≡ t
    → clean_bearer (codes "Bearer " ++ t) ≡ t
unfolding clean_bearer has_prefix drop_bytes
bearer_token t whole inner = rw (whole, clean_bearer) inner

module _ (lib : JwtLibrary) (law : KeyLaw lib) (j : Jwt) where
  validated :
      (token : Text) (now : Instant) (claims : Claims)
      → validate_token lib j token now ≡ ok claims
      → (parsed : Token) × (lib.parse token (hmac_key j) now ≡ ok parsed)
        × (parsed.claims ≡ some claims)
        × (parsed.valid ≡ true)
  unfolding validate_token
  validated token now claims h = elim (Result-cases (lib.parse token (hmac_key j) now)) [
    | inr (e, failed) ↦ absurd (ground arith)
    | inl (parsed, e) ↦ elim (Option-cases parsed.claims) [
      | inl missing ↦ absurd (ground arith)
      | inr (c, there) ↦ (parsed, e, ground arith, ground arith)
    ]
  ]

  check_token-validate_token :
      (x : ℕ) (t : Text) (now : Instant) (claims : Claims)
      → validate_token lib j (x ∷ t) now ≡ ok claims
      → check_token lib j.secret (x ∷ t) now ≡ ok claims
  unfolding check_token filled socket_key hmac_key
  check_token-validate_token x t now claims h =
      let (parsed, e, there, valid) = validated (x ∷ t) now claims h in
      let same : lib.parse (x ∷ t) (socket_key j.secret) now ≡ ok parsed =
        law.parse_key (x ∷ t) (hmac_key j) (socket_key j.secret) now parsed _ _ refl refl refl e in
      rw (same, check_token) (ground arith)

  -- Under the law on key functions, for a token that is not empty and has no spaces around it: if
  -- the HTTP middleware authenticates a user by the header "Bearer " and the token, a
  -- handshake without data of its own that has this header is authenticated under the same secret,
  -- with claims of the same user.
  pub authenticate_handshake-auth_middleware :
      (x : ℕ) (t user_id : Text) (now : Instant) (h : Handshake)
      → trim_space (codes "Bearer " ++ x ∷ t) ≡ codes "Bearer " ++ x ∷ t
      → trim_space (x ∷ t) ≡ x ∷ t
      → h.auth ≡ none
      → lookup (codes "authorization") h.headers ≡ some ((codes "Bearer " ++ x ∷ t) ∷ [])
      → auth_middleware lib j (codes "Bearer " ++ x ∷ t) now ≡ authenticated user_id
      → (claims : Claims) × (authenticate_handshake lib (some h) j.secret now ≡ ok claims)
        × (claims.user_id ≡ user_id)
  unfolding auth_middleware has_prefix drop_bytes ◌==◌ authenticate_handshake extract_token
      auth_token first_under or_else
  authenticate_handshake-auth_middleware x t user_id now h whole inner plain header passed =
      elim (Result-cases (validate_token lib j (x ∷ t) now)) [
        | inr (e, failed) ↦ absurd (ground arith)
        | inl (claims, valid) ↦
            let extracted : extract_token (some h) ≡ x ∷ t =
              rw (plain, extract_token) (rw header (bearer_token (x ∷ t) whole inner)) in
            (claims, rw extracted (check_token-validate_token x t now claims valid), ground arith)
      ]
