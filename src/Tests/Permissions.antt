-- ===== src/Tests/Permissions.antt =====
-- The theorems on permissions at the sample office.
use golang_base.Base.{
  true, false, none, some, inl, eq_of_test, List, [], ◌∷◌, Text, codes, ◌==◌, contains, IsSorted,
  ◌≡◌, refl, ◌↔◌,
}
use golang_base.Domain.Errors.{ok}
use golang_base.Auth.Module.{auth_repository}
use golang_base.Auth.Service.{get_computed_permissions, has_permission}
use golang_base.Auth.Service.Spec.{Permitted}
use golang_base.Auth.Service.Access.{has_permission-Permitted, computed-has_permission}
use golang_base.Auth.Service.Grants.{
  PermissionChange, of_user, update_role_permissions, grant_user_permission, revoke_user_permission,
}
use golang_base.Auth.Service.Grants.Bulk.{is_some}
use golang_base.Auth.Service.Grants.Update.{update_role_permissions-rows}
use golang_base.Auth.Service.Grants.Cached.{
  HasOneSpelling, grant_user_permission-IsCoherent, revoke_user_permission-IsCoherent,
}
use golang_base.Auth.Service.Grants.CachedUpdate.{update_role_permissions-IsCoherent}
use golang_base.Auth.Overrides.{revoked_override-next}
use golang_base.Middleware.Permission.{next, check_access, match_permission}
use golang_base.Middleware.Permission.Patterns.{Matches, match_permission_iff}
use golang_base.Middleware.Permission.Coherence.{IsCoherent}
use golang_base.Middleware.Permission.Access.{decision, check_access-decision}
use golang_base.Middleware.Permission.Passing.{MayPass, check_access-MayPass}
use golang_base.Tests.Memory.Rows.{role_row}
use golang_base.Tests.Memory.Store.{
  memory, memory_role_laws, memory-FrameLaws, map_redis, map_redis_laws,
}
use golang_base.Tests.Memory.Json.{plain_codec, plain_codec_laws}
use golang_base.Tests.Samples.{runs, user_view, user_edit, ann_with_roles, admin, office, world}

-- An empty Redis is coherent.
pub world-IsCoherent : IsCoherent map_redis plain_codec (auth_repository memory) world
unfolding runs
world-IsCoherent = record { roles = λ role b rows found e. cc; users = λ id b rows found e. cc }

has_permission_tests :
    (has_permission memory 5 (codes "u1") user_edit office ≡ true)
    × (has_permission memory 11 (codes "u1") user_edit office ≡ false)
    × (has_permission memory 5 (codes "u1") user_view office ≡ false)
    × (has_permission memory 5 (codes "zz") user_edit office ≡ false)
    × (get_computed_permissions memory 5 (codes "u1") (admin ∷ []) office ≡ ok (user_edit ∷ []))
unfolding runs
has_permission_tests = (refl, refl, refl, refl, refl)

has_permission-Permitted_example :
    (has_permission memory 5 (codes "u1") user_edit office ≡ true)
    ↔ Permitted memory 5 (codes "u1") (admin ∷ []) user_edit office
unfolding runs
has_permission-Permitted_example =
    has_permission-Permitted memory 5 (codes "u1") user_edit office ann_with_roles refl

computed-has_permission_example :
    (perms : List Text) × (get_computed_permissions memory 5 (codes "u1") (admin ∷ []) office
      ≡ ok perms)
    × IsSorted perms
    × ((p : Text) → contains p perms ≡ has_permission memory 5 (codes "u1") p office)
unfolding runs
computed-has_permission_example =
    computed-has_permission memory 5 (codes "u1") office ann_with_roles refl refl

check_access-decision_example :
    ((check_access map_redis plain_codec
        (auth_repository memory)
        (user_view ∷ [])
        (some (codes "u1"))
        world).0
      ≡ decision (auth_repository memory) (user_view ∷ []) (some (codes "u1")) office)
    × ((check_access map_redis plain_codec
          (auth_repository memory)
          (user_view ∷ [])
          (some (codes "u1"))
          world).1.store
        ≡ office)
    × IsCoherent map_redis plain_codec
        (auth_repository memory)
        (check_access map_redis plain_codec
          (auth_repository memory)
          (user_view ∷ [])
          (some (codes "u1"))
          world).1
check_access-decision_example =
    check_access-decision map_redis plain_codec (auth_repository memory) map_redis_laws
      plain_codec_laws (user_view ∷ []) (some (codes "u1")) world world-IsCoherent

check_access-MayPass_example :
    ((check_access map_redis plain_codec
        (auth_repository memory)
        (codes "user.*" ∷ [])
        (some (codes "u1"))
        world).0
      ≡ next)
    ↔ MayPass (auth_repository memory) (codes "user.*" ∷ []) (codes "u1") ann_with_roles office
unfolding runs
check_access-MayPass_example =
    check_access-MayPass map_redis plain_codec (auth_repository memory) map_redis_laws
      plain_codec_laws (codes "user.*" ∷ []) b'u' (codes "1") ann_with_roles world world-IsCoherent
      refl

match_permission_iff_example :
    (match_permission user_view (codes "role.view" ∷ codes "user.*" ∷ []) ≡ true) ↔ (
      (q : Text) × (contains q (codes "role.view" ∷ codes "user.*" ∷ []) ≡ true)
      × Matches user_view q)
match_permission_iff_example =
    match_permission_iff user_view (codes "role.view" ∷ codes "user.*" ∷ [])

update_role_permissions-rows_example :
    let after =
      role_row
        (update_role_permissions memory map_redis 20 admin
          (user_edit ∷ codes "role.view" ∷ [])
          world).1.store.role_rows in
    (is_some (after admin user_edit) ≡ contains user_edit (user_edit ∷ codes "role.view" ∷ []))
    × (contains user_edit (user_edit ∷ codes "role.view" ∷ []) ≡ true
        → is_some (role_row office.role_rows admin user_edit) ≡ true
        → after admin user_edit ≡ role_row office.role_rows admin user_edit)
    × ((admin == codes "user") ≡ false
        → after (codes "user") user_edit ≡ role_row office.role_rows (codes "user") user_edit)
unfolding runs memory_role_laws
update_role_permissions-rows_example =
    update_role_permissions-rows memory map_redis memory_role_laws 20 admin
      (user_edit ∷ codes "role.view" ∷ []) world refl (codes "user") user_edit

abbrev change : PermissionChange
change = record {
  target_type = codes "user_permission";
  target_role = none;
  target_user_id = some (codes "u1");
  permission = user_edit;
  is_granted = true;
  expires_at = some 50;
  actor_id = codes "u9";
  reason = none;
  ip_address = none;
  user_agent = none;
}

-- The identifiers of this database have one spelling.
pub u1_once : HasOneSpelling map_redis memory-FrameLaws.same_id (of_user (codes "u1")) world.redis
unfolding memory-FrameLaws
u1_once other same = inl (eq_of_test (codes "u1") other same)

grant_user_permission-IsCoherent_example :
    IsCoherent map_redis plain_codec
      (auth_repository memory)
      (grant_user_permission memory map_redis 20 (ok (codes "l1")) change world).1
unfolding runs
grant_user_permission-IsCoherent_example =
    grant_user_permission-IsCoherent memory map_redis plain_codec memory-FrameLaws map_redis_laws 20
      (ok (codes "l1")) change world world-IsCoherent refl u1_once

revoke_user_permission-IsCoherent_example :
    IsCoherent map_redis plain_codec
      (auth_repository memory)
      (revoke_user_permission memory map_redis 20 (ok (codes "l1")) change world).1
unfolding runs
revoke_user_permission-IsCoherent_example =
    revoke_user_permission-IsCoherent memory map_redis plain_codec memory-FrameLaws map_redis_laws
      20 (ok (codes "l1")) change world world-IsCoherent refl u1_once

revoked_override-next_example :
    (has_permission memory 5 (codes "u1") user_view office ≡ false)
    × ((check_access map_redis plain_codec
          (auth_repository memory)
          (user_view ∷ [])
          (some (codes "u1"))
          world).0
        ≡ next)
unfolding runs
revoked_override-next_example =
    revoked_override-next memory map_redis plain_codec map_redis_laws plain_codec_laws 5 b'u'
      (codes "1") user_view ann_with_roles world world-IsCoherent refl refl refl

update_role_permissions-IsCoherent_example :
    IsCoherent map_redis plain_codec
      (auth_repository memory)
      (update_role_permissions memory map_redis 20 admin (user_edit ∷ []) world).1
unfolding runs
update_role_permissions-IsCoherent_example =
    update_role_permissions-IsCoherent memory map_redis memory-FrameLaws plain_codec map_redis_laws
      20 admin (user_edit ∷ []) world world-IsCoherent refl refl
