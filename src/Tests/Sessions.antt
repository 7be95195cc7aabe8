-- ===== src/Tests/Sessions.antt =====
-- The theorems on sessions at a login of ann, at instant 0.
use golang_base.Base.{
  ℕ, String, Bool, true, some, [], ◌∷◌, ◌++◌, Text, codes, eq_refl, ◌≡◌, refl, arith,
}
use golang_base.Domain.{User}
use golang_base.Domain.Errors.{PgError, ok}
use golang_base.Pkg.Jwt.{Jwt, new_jwt, generate_access_token}
use golang_base.Pkg.Jwt
use golang_base.Auth.Repository
use golang_base.Auth.Service.Accounts.{
  Session, NewUser, hash_password, new_user, create_user, open_session, login, refresh_token,
}
use golang_base.Auth.Service.Accounts.Users.{login-create_user}
use golang_base.Auth.Service.Accounts.Tokens.{auth_middleware-login, refresh_token-login}
use golang_base.Middleware.Authentication.{unauthorized, auth_middleware}
use golang_base.Tests.Memory.Store.{Store, memory}
use golang_base.Tests.Memory.Json.{write_text}
use golang_base.Tests.Memory.Tokens.{plain_token, is_ascii, plain_jwt, plain_jwt_laws, marked}
use golang_base.Tests.Samples.{runs, admin, ann, ann_with_roles, office}

-- The office, where ann has a password.
abbrev club : Store
club = record office { users = record ann { password = some (codes "#pw") } ∷ [] }

abbrev pub jwt : Jwt
jwt = new_jwt (codes "k")

-- A token for ann: 15 minutes, or 7 days.
abbrev pub token : String → ℕ → Text
token subject exp = exp ∷ 0 ∷ (write_text (codes "k") ++ (write_text (codes "u1") ++ codes subject))

abbrev session : Session
session = record {
  access_token = token "access" 900_000_000_000;
  refresh_token = token "refresh" 604_800_000_000_000;
  user = record ann_with_roles { password = some (codes "#pw") };
}

-- The login of ann.
logged_in : login plain_jwt jwt memory marked 0 (codes "ann@x.io") (codes "pw") club ≡ ok session
unfolding runs login open_session generate_access_token Jwt.generate_refresh_token Jwt.access_claims
    Jwt.refresh_claims new_jwt plain_token Repository.get_user_by_email
logged_in = refl

auth_middleware-login_example :
    auth_middleware plain_jwt jwt (codes "Bearer " ++ session.access_token) 900_000_000_000
    ≡ unauthorized (codes "invalid or expired token")
unfolding runs is_ascii new_jwt
auth_middleware-login_example =
    auth_middleware-login memory marked plain_jwt jwt plain_jwt_laws 0 900_000_000_000
      (codes "ann@x.io") (codes "pw") club session logged_in refl

refresh_token-login_example :
    refresh_token plain_jwt jwt 900_000_000_000 session.refresh_token
    ≡ generate_access_token plain_jwt jwt (codes "u1") 900_000_000_000
unfolding runs is_ascii new_jwt
refresh_token-login_example =
    refresh_token-login memory marked plain_jwt jwt plain_jwt_laws 0 900_000_000_000
      (codes "ann@x.io") (codes "pw") club session logged_in refl

abbrev bob : NewUser
bob = record {
  email = codes "bob@x.io";
  password = codes "b";
  name = codes "Bob";
  roles = admin ∷ [];
}

abbrev bob_made : User
bob_made = record {
  id = codes "u7";
  name = codes "Bob";
  email = codes "bob@x.io";
  password = some (codes "#b");
  roles = admin ∷ [];
  is_active = true;
  created_at = 3;
  updated_at = 3;
}

-- Every violation counts as one of integrity.
abbrev pub any_error : PgError → Bool
any_error e = true

bob_created :
    (create_user memory any_error marked 3 (ok (codes "u7")) bob [] office).0 ≡ ok bob_made
unfolding runs create_user hash_password new_user Repository.create_user Repository.user_roles_of
    Repository.actor_of Repository.assign_roles Repository.get_user_by_email
bob_created = refl

-- The plain bcrypt accepts its own hashes.
marked_lem : (p h : Text) → marked.generate p ≡ ok h → marked.compare h p ≡ true
marked_lem p h e = ground (arith, eq_refl (b'#' ∷ p))

login-create_user_example :
    login plain_jwt jwt memory marked 5 bob.email bob.password
      (create_user memory any_error marked 3 (ok (codes "u7")) bob [] office).1
    ≡ open_session plain_jwt jwt 5 bob_made
unfolding runs create_user hash_password new_user Repository.create_user Repository.user_roles_of
    Repository.actor_of Repository.assign_roles Repository.get_user_by_email
login-create_user_example =
    login-create_user memory any_error marked plain_jwt jwt marked_lem 3 5 (ok (codes "u7")) bob []
      office (create_user memory any_error marked 3 (ok (codes "u7")) bob [] office).1 bob_made
      bob_made b'b' [] refl bob_created refl refl
