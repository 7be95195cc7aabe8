-- ===== src/Auth/Service.antt =====
-- internal/modules/auth/service.go. This file: what a user may do, read from the role rows and from
-- the user's overrides. The accounts and the changes of permissions are in the children.
pub mod Spec
pub mod Access
pub mod Grants
pub mod Accounts
pub mod Matrix
use golang_base.Base.{
  Bool, true, false, Option, none, some, List, [], ◌∷◌, ◌++◌, Text, codes, ◌==◌, contains, Dict,
  lookup, insert, erase, keys, sort_strings, ltb, if◌then◌else◌,
}
use golang_base.Domain.{Instant, role_super_admin, User, RolePermission, UserPermission}
use golang_base.Domain.Errors.{Result, ok, err}
use golang_base.Infra.{Database}
use golang_base.Auth.Repository

-- `p.ExpiresAt != nil && p.ExpiresAt.Before(now)`
abbrev pub is_expired : Instant → Option Instant → Bool
is_expired now none = false
is_expired now (some at) = ltb at now

-- The loop of GetRolePermissions.
unfoldable pub unexpired_permissions : Instant → List RolePermission → List Text
unexpired_permissions now [] = []
unexpired_permissions now (p ∷ perms) =
    let rest = unexpired_permissions now perms in
    if is_expired now p.expires_at then rest else p.permission ∷ rest

-- The loop of GetUserPermissions.
unfoldable pub collect_overrides : Instant → List UserPermission → Dict Bool → Dict Bool
collect_overrides now [] result = result
collect_overrides now (p ∷ perms) result =
    collect_overrides now perms
      (if is_expired now p.expires_at then result else insert p.permission p.is_granted result)

-- `for _, p := range rolePerms { permSet[p] = true }`
unfoldable pub add_all : List Text → Dict Bool → Dict Bool
add_all [] set = set
add_all (p ∷ perms) set = add_all perms (insert p true set)

-- `for perm, granted := range userPerms`: the list is one order of iteration.
unfoldable pub apply_overrides : Dict Bool → Dict Bool → Dict Bool
apply_overrides [] set = set
apply_overrides ((perm, granted) ∷ rest) set =
    apply_overrides rest (if granted then insert perm true set else erase perm set)

module _ {S : Type 0} (db : Database S) where
  unfoldable pub get_role_permissions : Instant → Text → S → Result (List Text)
  get_role_permissions now role s = elim (Repository.get_role_permissions db role s) [
    | err e ↦ err e
    | ok perms ↦ ok (unexpired_permissions now perms)
  ]

  unfoldable pub get_user_permissions : Instant → Text → S → Result (Dict Bool)
  get_user_permissions now user_id s = elim (Repository.get_user_permissions db user_id s) [
    | err e ↦ err e
    | ok perms ↦ ok (collect_overrides now perms [])
  ]

  -- The first loop of GetComputedPermissions: a role whose read fails is passed over.
  unfoldable pub collect_roles : Instant → List Text → Dict Bool → S → Dict Bool
  collect_roles now [] set s = set
  collect_roles now (role ∷ roles) set s = elim (get_role_permissions now role s) [
    | err e ↦ collect_roles now roles set s
    | ok perms ↦ collect_roles now roles (add_all perms set) s
  ]

  -- The set of GetComputedPermissions: what the roles give, then the user's overrides.
  unfoldable pub computed_set : Instant → Text → List Text → S → Dict Bool
  computed_set now user_id roles s =
      let set = collect_roles now roles [] s in
      elim (get_user_permissions now user_id s) [
        | err e ↦ set
        | ok overrides ↦ apply_overrides overrides set
      ]

  unfoldable pub get_computed_permissions : Instant → Text → List Text → S → Result (List Text)
  get_computed_permissions now user_id roles s =
      if contains role_super_admin roles
      then ok (codes "*" ∷ [])
      else ok (sort_strings (keys (computed_set now user_id roles s)))

  -- The last loop of HasPermission.
  unfoldable pub some_role_has : Instant → Text → List Text → S → Bool
  some_role_has now permission [] s = false
  some_role_has now permission (role ∷ roles) s = elim (get_role_permissions now role s) [
    | err e ↦ some_role_has now permission roles s
    | ok perms ↦ elim (contains permission perms) [
      | true ↦ true
      | false ↦ some_role_has now permission roles s
    ]
  ]

  unfoldable pub has_permission : Instant → Text → Text → S → Bool
  has_permission now user_id permission s = elim (Repository.get_user_by_id db user_id s) [
    | err e ↦ false
    | ok user ↦
        if contains role_super_admin user.roles
        then true
        else elim (get_user_permissions now user_id s) [
          | err e ↦ some_role_has now permission user.roles s
          | ok overrides ↦ elim (lookup permission overrides) [
            | some granted ↦ granted
            | none ↦ some_role_has now permission user.roles s
          ]
        ]
  ]
