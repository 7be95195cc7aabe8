-- ===== src/Tests/Sockets.antt =====
-- The theorem on the handshake of a socket, for ann's token of a login at instant 0.
use golang_base.Base.{
  Bool, true, none, some, [], ◌∷◌, ◌++◌, Text, codes, ◌==◌, has_prefix, drop_bytes, lookup, ◌≡◌,
  refl, arith,
}
use golang_base.Base.Paths.{rev_onto}
use golang_base.Base.Space.{trim_front, trim_back, trim_space}
use golang_base.Domain.{Instant}
use golang_base.Domain.Errors.{Result, ok}
use golang_base.Pkg.Jwt
use golang_base.Pkg.Jwt.{Claims, Token, JwtLibrary, new_jwt, validate_token}
use golang_base.Pkg.Socketio.{Handshake, authenticate_handshake}
use golang_base.Pkg.Socketio.Agreement.{KeyLaw, authenticate_handshake-auth_middleware}
use golang_base.Middleware.Authentication.{auth_middleware}
use golang_base.Tests.Memory.Json
use golang_base.Tests.Memory.Json.{write_text}
use golang_base.Tests.Memory.Tokens.{plain_jwt, parse_plain, open_token}
use golang_base.Tests.Sessions.{jwt, token}

-- The plain library asks for the key of HMAC alone.
parse_plain-key :
    (t : Text) (key key' : Bool → Result Text) (now : Instant)
    → key' true ≡ key true
    → parse_plain t key' now ≡ parse_plain t key now
unfolding parse_plain
parse_plain-key [] key key' now same = refl
parse_plain-key (a ∷ []) key key' now same = refl
parse_plain-key (a ∷ b ∷ t) key key' now same = ground arith

plain_jwt-KeyLaw : KeyLaw plain_jwt
plain_jwt-KeyLaw = record {
  parse_key = λ t key key' now parsed e e' f f' same h.
      ground (arith, parse_plain-key t key key' now same, h);
}

abbrev ticket : Text
ticket = token "access" 900_000_000_000

abbrev shake : Handshake
shake = record {
  auth = none;
  headers = (codes "authorization", (codes "Bearer " ++ ticket) ∷ []) ∷ [];
  query = [];
}

authenticate_handshake-auth_middleware_example :
    (claims : Claims) × (authenticate_handshake plain_jwt (some shake) jwt.secret 5 ≡ ok claims)
    × (claims.user_id ≡ codes "u1")
unfolding trim_front trim_back trim_space rev_onto lookup ◌==◌ has_prefix drop_bytes auth_middleware
    validate_token Jwt.hmac_key new_jwt parse_plain open_token Json.write_text Json.read_text
    Json.take_text Json.read_number
authenticate_handshake-auth_middleware_example =
    authenticate_handshake-auth_middleware plain_jwt plain_jwt-KeyLaw jwt 900_000_000_000
      (0 ∷ (write_text (codes "k") ++ (write_text (codes "u1") ++ codes "access"))) (codes "u1") 5
      shake refl refl refl refl refl
