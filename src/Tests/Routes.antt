-- ===== src/Tests/Routes.antt =====
-- The theorems on the routes, at requests of ann with the token of a login at instant 0.
use golang_base.Base.{
  true, Option, none, some, inl, eq_of_test, [], ◌∷◌, ◌++◌, Text, codes, Dict, contains, ◌≡◌, ◌≢◌,
  ap, refl, arith, drop_bytes, length,
}
use golang_base.Domain.{User}
use golang_base.Domain.Errors.{ok}
use golang_base.Pkg.Jwt
use golang_base.Pkg.Jwt.{new_jwt, validate_token}
use golang_base.Pkg.Response
use golang_base.Pkg.Validator.{validate_struct}
use golang_base.Tests.Memory.Json
use golang_base.Pkg.Response.{ok_response}
use golang_base.Auth.Repository
use golang_base.Auth.Module.{auth_repository}
use golang_base.Auth.Dto.{UserResponse}
use golang_base.Auth.Service.{has_permission}
use golang_base.Auth.Service.Accounts
use golang_base.Auth.Service.Grants.Cached.{HasOneSpelling}
use golang_base.Auth.Handler
use golang_base.Auth.Handler.{
  App, UserPermissionRequest, Extras, CreateUserRequest, default_roles, permissions_or_empty,
}
use golang_base.Auth.Handler.Sessions
use golang_base.Auth.Handler.Users
use golang_base.Auth.Handler.Permissions
use golang_base.Auth.Handler.Views.{me-has_permission, create_user-changes}
use golang_base.Auth.Routes.{
  Endpoint, access_of, permitted, handle, serve_permitted, behind_auth, serve,
}
use golang_base.Auth.Routes.Guard.{serve-changes, serve-forbidden}
use golang_base.Auth.Routes.Invariant.{changed_user, here, later, request, Reach-IsCoherent}
use golang_base.Middleware.Authentication.{auth_middleware, authenticated}
use golang_base.Middleware.Permission.{next, check_access, allowed_permissions}
use golang_base.Middleware.Permission.Coherence.{IsCoherent}
use golang_base.Middleware.Permission.Passing.{MayPass, check_access-MayPass}
use golang_base.Tests.Memory.Store.{
  Store, memory, memory-FrameLaws, memory-AccountFrameLaws, map_redis, map_redis_laws,
}
use golang_base.Tests.Memory.Json.{plain_codec, plain_codec_laws}
use golang_base.Tests.Memory.Tokens
use golang_base.Tests.Memory.Tokens.{plain_jwt, marked, is_ascii}
use golang_base.Tests.Samples.{runs, ann_with_roles, office, world, admin}
use golang_base.Tests.Sessions.{jwt, token, any_error}
use golang_base.Tests.Permissions.{world-IsCoherent}

abbrev house : App Store (Dict Text)
house = record {
  db = memory;
  redis = map_redis;
  codec = plain_codec;
  bcrypt = marked;
  lib = plain_jwt;
  jwt = jwt;
  registry = [];
  integrity_violation = any_error;
  format = λ t. [];
  parse_time = λ layout s. none;
  ceil_quotient = λ a b. a;
  register_errors = λ req. [];
  login_errors = λ req. [];
  create_errors = λ req. [];
}

abbrev header : Text
header = codes "Bearer " ++ token "access" 900_000_000_000

-- PUT /users/u1/permissions/role.view, without a body.
abbrev grant : Endpoint
grant =
    Endpoint.put_users_permission (codes "u1") (codes "role.view")
      (record { granted = none; expires_at = none; reason = none })
      (record { granted = []; reason = []; expires_at = []; ip = codes "::1"; user_agent = [] })

-- DELETE /users/u1, for which ann has no permission.
abbrev removal : Endpoint
removal = Endpoint.delete_users_id (codes "u1")

-- What a request computes with.
unfoldable requests : Unit {0}
unfolding runs auth_middleware validate_token Jwt.hmac_key drop_bytes new_jwt Tokens.parse_plain
    Tokens.open_token Json.write_text Json.read_text Json.take_text Json.marshal Json.write_rows
    Json.write_role Json.write_user Json.write_bool Json.write_option Json.unmarshal Json.read_rows
    Json.read_role Json.read_user Json.read_bool Json.read_option Json.read_number access_of handle
    serve_permitted behind_auth serve allowed_permissions Permissions.granted_of
    Permissions.text_or_query Permissions.first_parse Permissions.parse_expires_at
    Permissions.put_override Permissions.put_user_permission Response.ok_response Response.created
    Users.create_user Users.create_valid_user Users.role_names_or_nil Users.roles_are_valid
    Users.all_among Users.user_content permissions_or_empty Accounts.create_user
    Accounts.hash_password Accounts.new_user Repository.create_user Repository.user_roles_of
    Repository.actor_of Repository.assign_roles Repository.get_user_by_email
    Repository.get_all_roles validate_struct
requests = tt

signed_in_ann : auth_middleware plain_jwt jwt header 5 ≡ authenticated (codes "u1")
unfolding requests
signed_in_ann = refl

grant_changes : (serve house 5 (ok (codes "l1")) header grant world).1.store ≢ office
unfolding requests
grant_changes same = absurd (ground (arith, ap (λ s. s.logs) same))

serve-changes_example :
    (p : Text) × (user_id : Text) × (user : User) × (access_of grant ≡ permitted p)
    × (auth_middleware plain_jwt jwt header 5 ≡ authenticated user_id)
    × (Repository.get_user_by_id memory user_id office ≡ ok user)
    × MayPass (auth_repository memory) (p ∷ []) user_id user office
serve-changes_example =
    serve-changes house map_redis_laws plain_codec_laws 5 (ok (codes "l1")) header grant world
      world-IsCoherent grant_changes

may_not_delete :
    ¬ MayPass (auth_repository memory) (codes "user.delete" ∷ []) (codes "u1") ann_with_roles office
unfolding requests
may_not_delete may =
    let passed : (check_access map_redis plain_codec (auth_repository memory)
          (codes "user.delete" ∷ []) (some (codes "u1")) world).0
        ≡ next =
      (check_access-MayPass map_redis plain_codec (auth_repository memory) map_redis_laws
          plain_codec_laws (codes "user.delete" ∷ []) b'u' (codes "1") ann_with_roles world
          world-IsCoherent refl).1
        may in
    absurd (ground (arith, passed))

serve-forbidden_example :
    ((serve house 5 (ok []) header removal world).0.status ≡ 403)
    × ((serve house 5 (ok []) header removal world).1.store ≡ office)
unfolding runs access_of
serve-forbidden_example =
    serve-forbidden house map_redis_laws plain_codec_laws 5 (ok []) header (codes "user.delete")
      removal b'u' (codes "1") ann_with_roles world world-IsCoherent refl signed_in_ann refl
      may_not_delete

grant_served : (serve house 5 (ok (codes "l1")) header grant world).0.status ≢ 500
unfolding requests
grant_served bad = absurd (omega (arith, bad))

u1_always :
    (r : Option (Dict Text))
    → HasOneSpelling map_redis memory-FrameLaws.same_id (changed_user grant) r
unfolding memory-FrameLaws
u1_always r other same = inl (eq_of_test (codes "u1") other same)

Reach-IsCoherent_example :
    IsCoherent map_redis plain_codec
      (auth_repository memory)
      (serve house 5 (ok (codes "l1")) header grant world).1
Reach-IsCoherent_example =
    Reach-IsCoherent house memory-AccountFrameLaws memory-FrameLaws map_redis_laws plain_codec_laws
      (λ k r. refl) world (serve house 5 (ok (codes "l1")) header grant world).1 world-IsCoherent
      (later world (serve house 5 (ok (codes "l1")) header grant world).1 here (
        request 5 (ok (codes "l1")) header grant world refl grant_served
          (λ p actor guarded valid. u1_always _)))

me-has_permission_example :
    (u : UserResponse) × ((Sessions.me house 5 (codes "u1") world).0
      ≡ ok_response (Handler.user_view u))
    × (u.id ≡ codes "u1")
    × ((p : Text) → contains p u.permissions ≡ has_permission memory 5 (codes "u1") p office)
unfolding runs
me-has_permission_example = me-has_permission house 5 ann_with_roles world refl refl

-- The office at an instant when ann may create users.
abbrev hiring : Store
hiring = record office {
  role_rows =
      record { role = admin; permission = codes "user.create"; created_at = 1; expires_at = none }
      ∷ [];
}

abbrev newcomer : CreateUserRequest
newcomer = record {
  email = codes "bob@x.io";
  password = [];
  name = codes "Bob";
  roles = admin ∷ [];
}

has_roles : Users.role_names_or_nil house hiring ≢ []
unfolding requests
has_roles h = cc

newcomer_added :
    (Users.create_user house 5
      (ok (codes "u7"))
      (codes "u1")
      (some newcomer)
      (record { store = hiring; redis = none })).1.store
    ≢ hiring
unfolding requests
newcomer_added same = absurd (ground (arith, ap (λ s. length s.users) same))

create_user-changes_example :
    (has_permission memory 5 (codes "u1") (codes "user.create") hiring ≡ true)
    × ((req : CreateUserRequest) × (some newcomer ≡ some req)
        × (house.create_errors req ≡ [])
        × ((r : Text)
            → contains r (default_roles req.roles) ≡ true
            → contains r (Users.role_names_or_nil house hiring) ≡ true))
create_user-changes_example =
    create_user-changes house 5 (ok (codes "u7")) (codes "u1") (some newcomer)
      (record { store = hiring; redis = none }) has_roles newcomer_added
