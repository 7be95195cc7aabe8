-- ===== src/Pkg/Socketio.antt =====
-- internal/pkg/socketio/auth.go: the token of a handshake and its check. The handshake is the
-- socket library's; what hangs the check into a namespace is input and output.
pub mod Agreement
use golang_base.Base.{
  Bool, true, false, Option, none, some, List, [], ◌∷◌, Text, codes, Dict, lookup, has_prefix,
  drop_bytes, map, ◌+◌, ℕ, leb, ◌&&◌, if◌then◌else◌,
}
use golang_base.Base.Space.{trim_space}
use golang_base.Domain.{Instant, zero_time}
use golang_base.Domain.Errors.{Error, message, Result, ok, err}
use golang_base.Pkg.Jwt.{Claims, JwtLibrary}

-- `auth` is none if it is no map; a value of it is none if it is no string.
pub record Handshake : Type 0 where
  pub auth : Option (Dict (Option Text))
  pub headers : Dict (List Text)
  pub query : Dict (List Text)

-- `strings.ToLower` on ASCII, which is what a comparison with an ASCII prefix sees.
abbrev lower_byte : ℕ → ℕ
lower_byte c = if leb b'A' c && leb c b'Z' then c + 32 else c

unfoldable pub clean_bearer : Text → Text
clean_bearer token =
    let trimmed = trim_space token in
    if has_prefix (map lower_byte trimmed) (codes "bearer ")
    then trim_space (drop_bytes 7 trimmed)
    else trimmed

-- A string that is not empty under the key.
unfoldable pub text_under : Text → Dict (Option Text) → Option Text
text_under key m = elim (lookup key m) [
  | none ↦ none
  | some none ↦ none
  | some (some []) ↦ none
  | some (some (c ∷ cs)) ↦ some (c ∷ cs)
]

-- The first of the values under the key.
unfoldable pub first_under : Text → Dict (List Text) → Option Text
first_under key m = elim (lookup key m) [ none ↦ none | some [] ↦ none | some (v ∷ vs) ↦ some v ]

-- The first of two that is there.
unfoldable pub or_else : Option Text → Option Text → Option Text
or_else none b = b
or_else (some a) b = some a

unfoldable pub auth_token : Option (Dict (Option Text)) → Option Text
auth_token none = none
auth_token (some m) = or_else (text_under (codes "token") m) (text_under (codes "accessToken") m)

-- The handshake's own data, then the headers, then the query; no handshake gives no token.
unfoldable pub extract_token : Option Handshake → Text
extract_token none = []
extract_token (some h) =
    elim (or_else (auth_token h.auth) (
      or_else (first_under (codes "authorization") h.headers) (
        or_else (first_under (codes "Authorization") h.headers)
          (first_under (codes "token") h.query)))) [ none ↦ [] | some token ↦ clean_bearer token ]

-- The function that ParseWithClaims asks for the key.
unfoldable pub socket_key : Text → Bool → Result Text
socket_key secret true = ok secret
socket_key secret false = err (message (codes "unexpected signing method"))

-- The claims that the library has filled in.
unfoldable pub filled : Option Claims → Claims
filled none = record { user_id = []; expires_at = zero_time; issued_at = zero_time; subject = [] }
filled (some claims) = claims

unfoldable pub check_token : JwtLibrary → Text → Text → Instant → Result Claims
check_token lib secret [] now = err (message (codes "missing token"))
check_token lib secret (c ∷ cs) now = elim (lib.parse (c ∷ cs) (socket_key secret) now) [
  | err e ↦ err (message (codes "invalid or expired token"))
  | ok parsed ↦
      if parsed.valid
      then ok (filled parsed.claims)
      else err (message (codes "invalid or expired token"))
]

unfoldable pub authenticate_handshake :
    JwtLibrary → Option Handshake → Text → Instant → Result Claims
authenticate_handshake lib handshake secret now =
    check_token lib secret (extract_token handshake) now

-- GetUserID, from the claims that the socket holds, if it holds any.
unfoldable pub get_user_id : Option Claims → Option Text
get_user_id none = none
get_user_id (some claims) = some claims.user_id
