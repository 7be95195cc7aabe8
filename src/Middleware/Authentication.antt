-- ===== src/Middleware/Authentication.antt =====
-- internal/middleware/auth.go: the check of the Authorization header.
use golang_base.Base.{Text, codes, ◌==◌, [], not, has_prefix, drop_bytes, if◌then◌else◌}
use golang_base.Domain.{Instant}
use golang_base.Domain.Errors.{ok, err}
use golang_base.Pkg.Jwt.{Jwt, JwtLibrary, validate_token}

-- The next handler, with the user's identifier in the locals, or a response 401.
pub data Authentication : Type 0 where
  authenticated : Text → Authentication
  unauthorized : Text → Authentication

unfoldable pub auth_middleware : JwtLibrary → Jwt → Text → Instant → Authentication
auth_middleware lib jwt auth_header now =
    if auth_header == []
    then unauthorized (codes "missing authorization header")
    else if not (has_prefix auth_header (codes "Bearer "))
    then unauthorized (codes "invalid authorization header format")
    else elim (validate_token lib jwt (drop_bytes 7 auth_header) now) [
      | err e ↦ unauthorized (codes "invalid or expired token")
      | ok claims ↦ authenticated claims.user_id
    ]
