-- ===== src/Pkg/Jwt.antt =====
-- internal/pkg/jwt/jwt.go: the tokens. The signing and the parsing of a token are the jwt
-- library's, which is a record of parameters here. An instant counts nanoseconds, as time.Duration
-- does.
use golang_base.Base.{
  ℕ, ◌+◌, ◌*◌, Bool, true, false, Option, none, some, [], Text, codes, ◌==◌, if◌then◌else◌, ◌≡◌,
  refl, ltb, Bool-cases, inl, inr,
}
use golang_base.Domain.{Instant}
use golang_base.Domain.Errors.{Error, message, Result, ok, err}

pub record Claims : Type 0 where
  pub user_id : Text
  pub expires_at : Instant
  pub issued_at : Instant
  pub subject : Text

-- The two lifetimes, of which the program uses 15 minutes and 7 days.
pub record Jwt : Type 0 where
  pub secret : Text
  pub access_expire_min : ℕ
  pub refresh_expire_day : ℕ

-- What ParseWithClaims returns without an error.
pub record Token : Type 0 where
  pub claims : Option Claims
  pub valid : Bool

-- `parse token key now`: `key` is the key function, applied to whether the token's method is HMAC;
-- `is_token_expired` is `errors.Is(err, jwt.ErrTokenExpired)`, `is_utf8` utf8.ValidString.
pub record JwtLibrary : Type 0 where
  pub numeric_date : Instant → Instant
  pub sign : Claims → Text → Result Text
  pub parse : Text → (Bool → Result Text) → Instant → Result Token
  pub is_token_expired : Error → Bool
  pub is_utf8 : Text → Bool

abbrev pub minute : ℕ
minute = 60_000_000_000

abbrev pub hour : ℕ
hour = 3_600_000_000_000

abbrev pub invalid_token : Error
invalid_token = message (codes "invalid token")

abbrev pub expired_token : Error
expired_token = message (codes "token has expired")

-- The secret is the environment's, or a default when that is empty.
unfoldable pub new_jwt : Text → Jwt
new_jwt jwt_secret = record {
  secret = if jwt_secret == [] then codes "default-secret-key-change-in-production" else jwt_secret;
  access_expire_min = 15;
  refresh_expire_day = 7;
}

-- The function that ParseWithClaims asks for the key.
unfoldable pub hmac_key : Jwt → Bool → Result Text
hmac_key j true = ok j.secret
hmac_key j false = err invalid_token

module _ (lib : JwtLibrary) (j : Jwt) where
  unfoldable pub access_claims : Text → Instant → Claims
  access_claims user_id now = record {
    user_id = user_id;
    expires_at = lib.numeric_date (now + j.access_expire_min * minute);
    issued_at = lib.numeric_date now;
    subject = codes "access";
  }

  unfoldable pub refresh_claims : Text → Instant → Claims
  refresh_claims user_id now = record {
    user_id = user_id;
    expires_at = lib.numeric_date (now + j.refresh_expire_day * 24 * hour);
    issued_at = lib.numeric_date now;
    subject = codes "refresh";
  }

  unfoldable pub generate_access_token : Text → Instant → Result Text
  generate_access_token user_id now = lib.sign (access_claims user_id now) j.secret

  unfoldable pub generate_refresh_token : Text → Instant → Result Text
  generate_refresh_token user_id now = lib.sign (refresh_claims user_id now) j.secret

  unfoldable pub validate_token : Text → Instant → Result Claims
  validate_token token now = elim (lib.parse token (hmac_key j) now) [
    | err e ↦ if lib.is_token_expired e then err expired_token else err invalid_token
    | ok parsed ↦ elim parsed.claims [
      | none ↦ err invalid_token
      | some claims ↦ if parsed.valid then ok claims else err invalid_token
    ]
  ]

-- The library's documentation: a token signed with the key that the key function gives parses to
-- its claims before they expire, and to an error that says so from then on. The claims are JSON, so
-- their texts are UTF-8.
pub record JwtLaws (lib : JwtLibrary) : Type 0 where
  pub utf8_subjects : (lib.is_utf8 (codes "access") ≡ true) × (lib.is_utf8 (codes "refresh") ≡ true)
  pub parse_fresh :
      (user_id subject : Text) (exp iat now : Instant) (secret token : Text)
      (key : Bool → Result Text)
      → lib.is_utf8 user_id ≡ true
      → lib.is_utf8 subject ≡ true
      → lib.sign
          (record {
            user_id = user_id;
            expires_at = lib.numeric_date exp;
            issued_at = lib.numeric_date iat;
            subject = subject;
          })
          secret
        ≡ ok token
      → key true ≡ ok secret
      → ltb now (lib.numeric_date exp) ≡ true
      → lib.parse token key now
        ≡ ok (record {
          claims = some (record {
            user_id = user_id;
            expires_at = lib.numeric_date exp;
            issued_at = lib.numeric_date iat;
            subject = subject;
          });
          valid = true;
        })
  pub parse_stale :
      (user_id subject : Text) (exp iat now : Instant) (secret token : Text)
      (key : Bool → Result Text)
      → lib.is_utf8 user_id ≡ true
      → lib.is_utf8 subject ≡ true
      → lib.sign
          (record {
            user_id = user_id;
            expires_at = lib.numeric_date exp;
            issued_at = lib.numeric_date iat;
            subject = subject;
          })
          secret
        ≡ ok token
      → key true ≡ ok secret
      → ltb now (lib.numeric_date exp) ≡ false
      → (e : Error) × (lib.parse token key now ≡ err e) × (lib.is_token_expired e ≡ true)

module _ (lib : JwtLibrary) (laws : JwtLaws lib) (j : Jwt) where
  -- What ValidateToken says of an access token at a later instant.
  pub validate-generate_access :
      (user_id token : Text) (now later : Instant)
      → lib.is_utf8 user_id ≡ true
      → generate_access_token lib j user_id now ≡ ok token
      → validate_token lib j token later ≡ (
          if ltb later (lib.numeric_date (now + j.access_expire_min * minute))
          then ok (access_claims lib j user_id now)
          else err expired_token)
  unfolding generate_access_token validate_token access_claims hmac_key
  validate-generate_access user_id token now later utf8 signed =
      let exp = now + j.access_expire_min * minute in
      elim (Bool-cases (ltb later (lib.numeric_date exp))) [
        | inl fresh ↦
            rw
              (
                fresh,
                laws.parse_fresh user_id (codes "access") exp now later j.secret token (hmac_key j)
                    utf8 laws.utf8_subjects.0 signed refl fresh,
                validate_token,
              )
              refl
        | inr stale ↦
            let (e, failed, expired) =
              laws.parse_stale user_id (codes "access") exp now later j.secret token (hmac_key j)
                utf8 laws.utf8_subjects.0 signed refl stale in
            rw (stale, failed, validate_token) (rw expired refl)
      ]

  -- What ValidateToken says of a refresh token at a later instant.
  pub validate-generate_refresh :
      (user_id token : Text) (now later : Instant)
      → lib.is_utf8 user_id ≡ true
      → generate_refresh_token lib j user_id now ≡ ok token
      → validate_token lib j token later ≡ (
          if ltb later (lib.numeric_date (now + j.refresh_expire_day * 24 * hour))
          then ok (refresh_claims lib j user_id now)
          else err expired_token)
  unfolding generate_refresh_token validate_token refresh_claims hmac_key
  validate-generate_refresh user_id token now later utf8 signed =
      let exp = now + j.refresh_expire_day * 24 * hour in
      elim (Bool-cases (ltb later (lib.numeric_date exp))) [
        | inl fresh ↦
            rw
              (
                fresh,
                laws.parse_fresh user_id (codes "refresh") exp now later j.secret token (hmac_key j)
                    utf8 laws.utf8_subjects.1 signed refl fresh,
                validate_token,
              )
              refl
        | inr stale ↦
            let (e, failed, expired) =
              laws.parse_stale user_id (codes "refresh") exp now later j.secret token (hmac_key j)
                utf8 laws.utf8_subjects.1 signed refl stale in
            rw (stale, failed, validate_token) (rw expired refl)
      ]
