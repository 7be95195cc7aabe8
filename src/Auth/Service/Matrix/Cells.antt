-- ===== src/Auth/Service/Matrix/Cells.antt =====
-- internal/modules/auth/service.go: what stands in a cell of the permission matrix.
use golang_base.Base.{
  Bool, true, false, ◌&&◌, ◌||◌, none, some, List, [], ◌∷◌, ◌++◌, Text, ◌==◌, eq_of_test, contains,
  any, Dict, lookup, insert, lookup-insert, if◌then◌else◌, ◌≡◌, refl, arith, inl, inr, Option-cases,
}
use golang_base.Domain.{RolePermission}
use golang_base.Domain.Permissions.{Registry, all_permissions}
use golang_base.Domain.Errors.{ok}
use golang_base.Infra.{Database}
use golang_base.Auth.Repository
use golang_base.Auth.Repository.{group_by_role}
use golang_base.Auth.Service.Matrix.{
  set_all, matrix_row, matrix_rows, roles_or_empty, role_permissions_or_empty,
  get_permission_matrix,
}

lookup-set_all :
    (granted : Bool) (p : Text) (perms : List Text) (row : Dict Bool)
    → lookup p (set_all granted perms row)
      ≡ (if contains p perms then some granted else lookup p row)
unfolding set_all contains
lookup-set_all granted p [] row = refl
lookup-set_all granted p (q ∷ perms) row =
    ground
      (arith, lookup-set_all granted p perms (insert q granted row), lookup-insert q p granted row)

-- The permissions under a role, none if there is no such key.
abbrev pub granted_to : Text → Dict (List Text) → List Text
granted_to role m = elim (lookup role m) [ none ↦ [] | some perms ↦ perms ]

lookup-matrix_row :
    (p role : Text) (all_perms : List Text) (m : Dict (List Text))
    → lookup p (matrix_row all_perms m role) ≡ (
        if contains p (granted_to role m)
        then some true
        else if contains p all_perms
        then some false
        else none)
unfolding matrix_row contains lookup
lookup-matrix_row p role all_perms m = elim (Option-cases (lookup role m)) [
  | inl absent ↦ ground (arith, lookup-set_all false p all_perms [])
  | inr (perms, found) ↦ ground (
    arith,
    lookup-set_all true p perms (set_all false all_perms []),
    lookup-set_all false p all_perms [],
  )
]

lookup-matrix_rows :
    (role : Text) (all_perms : List Text) (m : Dict (List Text)) (roles : List Text)
    (matrix : Dict (Dict Bool))
    → lookup role (matrix_rows all_perms m roles matrix)
      ≡ (if contains role roles then some (matrix_row all_perms m role) else lookup role matrix)
unfolding matrix_rows contains
lookup-matrix_rows role all_perms m [] matrix = refl
lookup-matrix_rows role all_perms m (r ∷ roles) matrix = ground (
  arith,
  eq_of_test r role,
  lookup-matrix_rows role all_perms m roles (insert r (matrix_row all_perms m r) matrix),
  lookup-insert r role (matrix_row all_perms m r) matrix,
)

contains-append :
    (p : Text) (xs ys : List Text) → contains p (xs ++ ys) ≡ (contains p xs || contains p ys)
unfolding contains
contains-append p [] ys = refl
contains-append p (x ∷ xs) ys = ground (arith, contains-append p xs ys)

contains-group_by_role :
    (p role : Text) (rows : List RolePermission) (m : Dict (List Text))
    → contains p (granted_to role (group_by_role m rows)) ≡ (
        contains p (granted_to role m) || any (λ row. row.role == role && row.permission == p) rows)
unfolding group_by_role contains
contains-group_by_role p role [] m = ground arith
contains-group_by_role p role (row ∷ rows) m =
    let old = granted_to row.role m in
    let m' = insert row.role (old ++ row.permission ∷ []) m in
    ground (
      arith,
      eq_of_test row.role role,
      contains-group_by_role p role rows m',
      lookup-insert row.role role (old ++ row.permission ∷ []) m,
      contains-append p old (row.permission ∷ []),
    )

module _ {S : Type 0} (db : Database S) where
  -- If the table of roles' permissions can be read: the matrix has a row for exactly the roles of
  -- the table of roles; the cell of a permission is true if the role has a row for it, whether it
  -- has run out or not, and else it is false for a registered permission and absent for another.
  pub get_permission_matrix-cell :
      (registry : Registry) (s : S) (rows : List RolePermission)
      → db.select_all_role_permissions s ≡ ok rows
      → (role : Text)
      → (contains role (roles_or_empty db s) ≡ false
          → lookup role (get_permission_matrix db registry s).matrix ≡ none)
        × (contains role (roles_or_empty db s) ≡ true
            → (cells : Dict Bool) × (lookup role (get_permission_matrix db registry s).matrix
                ≡ some cells)
              × ((p : Text)
                  → lookup p cells ≡ (
                      if any (λ row. row.role == role && row.permission == p) rows
                      then some true
                      else if contains p (all_permissions registry)
                      then some false
                      else none)))
  unfolding get_permission_matrix role_permissions_or_empty Repository.get_all_role_permissions
      lookup contains
  get_permission_matrix-cell registry s rows read role =
      let m = role_permissions_or_empty db s in
      let grouped : m ≡ group_by_role [] rows = ground arith in
      let found = lookup-matrix_rows role (all_permissions registry) m (roles_or_empty db s) [] in
      (
        λ absent. ground (arith, found),
        λ present. (
          matrix_row (all_permissions registry) m role,
          ground (arith, found),
          λ p. ground (
            arith,
            grouped,
            lookup-matrix_row p role (all_permissions registry) m,
            contains-group_by_role p role rows [],
          ),
        ),
      )
