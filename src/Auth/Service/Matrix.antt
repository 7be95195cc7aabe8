-- ===== src/Auth/Service/Matrix.antt =====
-- internal/modules/auth/service.go: the permissions and roles as the administration shows them. The
-- registry is read once; a failed read of the tables leaves its part empty.
pub mod Cells
use golang_base.Base.{
  Bool, true, false, none, some, List, [], ◌∷◌, Text, Dict, lookup, insert, sort_strings,
}
use golang_base.Domain.Permissions.{
  PermissionDefinition, Registry, all_permissions, get_permission_description,
  get_permission_category,
}
use golang_base.Domain.Errors.{Result, ok, err}
use golang_base.Infra.{Database}
use golang_base.Auth.Repository
use golang_base.Auth.Repository.{group_by_role}
use golang_base.Auth.Dto.{PermissionMatrixResponse, PermissionListResponse}

-- `for _, perm := range perms { row[perm] = granted }`
unfoldable pub set_all : Bool → List Text → Dict Bool → Dict Bool
set_all granted [] row = row
set_all granted (perm ∷ perms) row = set_all granted perms (insert perm granted row)

-- One row of the matrix.
unfoldable pub matrix_row : List Text → Dict (List Text) → Text → Dict Bool
matrix_row all_perms db_role_perms role = elim (lookup role db_role_perms) [
  | none ↦ set_all false all_perms []
  | some perms ↦ set_all true perms (set_all false all_perms [])
]

-- The loop over the roles.
unfoldable pub matrix_rows :
    List Text → Dict (List Text) → List Text → Dict (Dict Bool) → Dict (Dict Bool)
matrix_rows all_perms db_role_perms [] matrix = matrix
matrix_rows all_perms db_role_perms (role ∷ roles) matrix =
    matrix_rows all_perms db_role_perms roles
      (insert role (matrix_row all_perms db_role_perms role) matrix)

-- The definition of each permission.
unfoldable pub definitions_of : Registry → List Text → List PermissionDefinition
definitions_of r [] = []
definitions_of r (p ∷ ps) =
    record {
      key = p;
      description = get_permission_description r p;
      category = get_permission_category p;
    }
    ∷ definitions_of r ps

-- Every role's permissions, sorted.
unfoldable pub sort_values : Dict (List Text) → Dict (List Text)
sort_values [] = []
sort_values ((role, perms) ∷ rest) = (role, sort_strings perms) ∷ sort_values rest

module _ {S : Type 0} (db : Database S) where
  unfoldable pub roles_or_empty : S → List Text
  roles_or_empty s = elim (Repository.get_all_roles db s) [ err e ↦ [] | ok roles ↦ roles ]

  unfoldable pub role_permissions_or_empty : S → Dict (List Text)
  role_permissions_or_empty s = elim (Repository.get_all_role_permissions db s) [
    | err e ↦ []
    | ok m ↦ m
  ]

  unfoldable pub get_permission_matrix : Registry → S → PermissionMatrixResponse
  get_permission_matrix r s = record {
    permissions = all_permissions r;
    roles = roles_or_empty s;
    matrix = matrix_rows (all_permissions r) (role_permissions_or_empty s) (roles_or_empty s) [];
  }

  unfoldable pub list_permissions : Registry → S → PermissionListResponse
  list_permissions r s = record {
    permissions = definitions_of r (all_permissions r);
    roles = roles_or_empty s;
  }

  unfoldable pub get_all_roles_with_permissions : S → Result (Dict (List Text))
  get_all_roles_with_permissions s = elim (db.select_all_role_permissions s) [
    | err e ↦ err e
    | ok rows ↦ ok (sort_values (group_by_role [] rows))
  ]
