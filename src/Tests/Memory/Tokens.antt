-- ===== src/Tests/Memory/Tokens.antt =====
-- A jwt library whose tokens are the claims and the key in plain, and a bcrypt whose hashes are the
-- passwords behind a mark.
use golang_base.Base.{
  zero, suc, ◌-◌, ◌%◌, Bool, true, false, ◌&&◌, none, some, [], ◌∷◌, ◌++◌, Text, ◌==◌, eq_refl, ltb,
  if◌then◌else◌, ◌≡◌, refl, arith,
}
use golang_base.Domain.{Instant}
use golang_base.Domain.Errors.{Error, external, Result, ok, err}
use golang_base.Pkg.Jwt.{Claims, Token, JwtLibrary, JwtLaws}
use golang_base.Auth.Service.Accounts.{Bcrypt}
use golang_base.Tests.Memory.Json.{read_text, write_text, read-write_text}

-- Whole seconds.
abbrev pub whole_seconds : Instant → Instant
whole_seconds t = t - t % 1_000_000_000

unfoldable pub plain_token : Claims → Text → Text
plain_token c secret =
    c.expires_at ∷ c.issued_at ∷ (write_text secret ++ (write_text c.user_id ++ c.subject))

unfoldable pub is_ascii : Text → Bool
is_ascii [] = true
is_ascii (c ∷ cs) = ltb c 128 && is_ascii cs

-- The claims of a token, checked against the key and the instant.
unfoldable pub open_token : Text → Claims → Text → Instant → Result Token
open_token secret claims key now =
    if key == secret
    then if ltb now claims.expires_at
      then ok (record { claims = some claims; valid = true })
      else err (external 1)
    else err (external 2)

unfoldable pub parse_plain : Text → (Bool → Result Text) → Instant → Result Token
parse_plain [] key now = err (external 3)
parse_plain (exp ∷ []) key now = err (external 3)
parse_plain (exp ∷ iat ∷ b) key now = elim (read_text b) [
  | none ↦ err (external 3)
  | some (secret, r) ↦ elim (read_text r) [
    | none ↦ err (external 3)
    | some (user_id, subject) ↦ elim (key true) [
      | err e ↦ err e
      | ok k ↦
          open_token secret
            (record { user_id = user_id; expires_at = exp; issued_at = iat; subject = subject }) k
            now
    ]
  ]
]

unfoldable pub is_stale : Error → Bool
is_stale (external (suc zero)) = true
is_stale _ = false

abbrev pub plain_jwt : JwtLibrary
plain_jwt = record {
  numeric_date = whole_seconds;
  sign = λ c secret. ok (plain_token c secret);
  parse = parse_plain;
  is_token_expired = is_stale;
  is_utf8 = is_ascii;
}

-- Parsing a token with its own key.
parse-plain_token :
    (c : Claims) (secret : Text) (key : Bool → Result Text) (now : Instant)
    → key true ≡ ok secret
    → parse_plain (plain_token c secret) key now ≡ open_token secret c secret now
unfolding parse_plain plain_token
parse-plain_token c secret key now h = ground (
  arith,
  read-write_text secret (write_text c.user_id ++ c.subject),
  read-write_text c.user_id c.subject,
)

pub plain_jwt_laws : JwtLaws plain_jwt
unfolding is_ascii open_token is_stale
plain_jwt_laws = record {
  utf8_subjects = (refl, refl);
  parse_fresh = λ user_id subject exp iat now secret token key u v signed h fresh. ground (
    arith,
    parse-plain_token
        (record {
          user_id = user_id;
          expires_at = whole_seconds exp;
          issued_at = whole_seconds iat;
          subject = subject;
        })
        secret key now h,
    eq_refl secret,
  );
  parse_stale = λ user_id subject exp iat now secret token key u v signed h stale. (
    external 1,
    ground (
      arith,
      parse-plain_token
          (record {
            user_id = user_id;
            expires_at = whole_seconds exp;
            issued_at = whole_seconds iat;
            subject = subject;
          })
          secret key now h,
      eq_refl secret,
    ),
    refl,
  );
}

abbrev pub marked : Bcrypt
marked = record { generate = λ p. ok (b'#' ∷ p); compare = λ h p. h == b'#' ∷ p }
