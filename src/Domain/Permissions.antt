-- ===== src/Domain/Permissions.antt =====
-- internal/domain/permissions.go: the registry of permissions. The registry is a Go map, read under
-- a lock; a registration is one call, so the lock adds nothing to the sequential model.
pub mod Groups
use golang_base.Base.{
  zero, suc, Bool, true, none, some, List, [], ◌∷◌, Text, codes, ◌==◌, index_byte, take_bytes, Dict,
  lookup, insert, keys, sort_strings, if◌then◌else◌,
}

pub record PermissionDefinition : Type 0 where
  pub key : Text
  pub description : Text
  pub category : Text

pub record PermissionGroup : Type 0 where
  pub name : Text
  pub permissions : List Text

-- `registeredPermissions`
abbrev pub Registry : Type 0
Registry = Dict Text

unfoldable pub register_permission : Text → Text → Registry → Registry
register_permission key description r = insert key description r

-- The registrations of `init`.
unfoldable pub core_permissions : Registry
core_permissions =
    register_permission (codes "storage.delete") (codes "Delete files from storage") (
      register_permission (codes "storage.view")
        (codes "View and generate presigned URLs for storage files")
        (register_permission (codes "storage.upload") (codes "Upload files to storage") (
          register_permission (codes "role.edit") (codes "Edit role data") (
            register_permission (codes "role.view") (codes "View role data") (
              register_permission (codes "user.delete") (codes "Delete user") (
                register_permission (codes "user.view") (codes "View user data") (
                  register_permission (codes "user.edit") (codes "Edit user data")
                    (register_permission (codes "user.create") (codes "Create new user") []))))))))

-- `GetPermissions` copies the map, so that later registrations do not show in the copy.
unfoldable pub get_permissions : Registry → Registry
get_permissions [] = []
get_permissions ((k, v) ∷ r) = (k, v) ∷ get_permissions r

unfoldable pub all_permissions : Registry → List Text
all_permissions r = sort_strings (keys (get_permissions r))

unfoldable pub get_permission_description : Registry → Text → Text
get_permission_description r permission = elim (lookup permission (get_permissions r)) [
  | some desc ↦ desc
  | none ↦ permission
]

-- The prefix before the first dot, if the dot is not the first byte.
unfoldable pub get_permission_category : Text → Text
get_permission_category permission = elim (index_byte permission b'.') [
  | none ↦ codes "unknown"
  | some zero ↦ codes "unknown"
  | some (suc i) ↦ take_bytes (suc i) permission
]

-- The map `catSet`.
unfoldable pub category_set : List Text → Dict Bool
category_set [] = []
category_set (p ∷ ps) = insert (get_permission_category p) true (category_set ps)

-- The loop that collects the permissions of one category.
unfoldable pub in_category : Text → List Text → List Text
in_category cat [] = []
in_category cat (p ∷ ps) =
    let rest = in_category cat ps in if get_permission_category p == cat then p ∷ rest else rest

-- The loop over the sorted categories.
unfoldable pub groups_of : List Text → List Text → List PermissionGroup
groups_of perms [] = []
groups_of perms (cat ∷ cats) =
    record { name = cat; permissions = sort_strings (in_category cat perms) } ∷ groups_of perms cats

unfoldable pub permission_groups : Registry → List PermissionGroup
permission_groups r =
    let perms = keys (get_permissions r) in
    groups_of perms (sort_strings (keys (category_set perms)))
