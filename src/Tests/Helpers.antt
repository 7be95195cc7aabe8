-- ===== src/Tests/Helpers.antt =====
-- The theorems on pages and on the permission matrix.
use golang_base.Base.{
  ℕ, ◌-◌, ◌*◌, ◌≤◌, Bool, true, false, ◌&&◌, none, some, Text, codes, ◌==◌, contains, any, Dict,
  lookup, if◌then◌else◌, pos, ◌≡◌, refl,
}
use golang_base.Domain.Permissions.{core_permissions, all_permissions}
use golang_base.Pkg.Pagination.{parse_pagination_params}
use golang_base.Pkg.Pagination.Bounds.{parse_pagination_params-bounds}
use golang_base.Auth.Service.Matrix.{roles_or_empty, get_permission_matrix}
use golang_base.Auth.Service.Matrix.Cells.{get_permission_matrix-cell}
use golang_base.Tests.Memory.Store.{memory}
use golang_base.Tests.Samples.{admin, office}

parse_pagination_params-bounds_example :
    let r = parse_pagination_params (codes "3") (codes "500") in
    (page : ℕ) × (limit : ℕ) × (r.page ≡ pos page)
    × (r.limit ≡ pos limit)
    × (1 ≤ page)
    × (1 ≤ limit)
    × (limit ≤ 100)
    × (page ≤ 92_233_720_368_547_758 → r.offset ≡ pos ((page - 1) * limit))
parse_pagination_params-bounds_example = parse_pagination_params-bounds (codes "3") (codes "500")

get_permission_matrix-cell_example :
    (contains admin (roles_or_empty memory office) ≡ false
      → lookup admin (get_permission_matrix memory core_permissions office).matrix ≡ none)
    × (contains admin (roles_or_empty memory office) ≡ true
        → (cells : Dict Bool) × (lookup admin
              (get_permission_matrix memory core_permissions office).matrix
            ≡ some cells)
          × ((p : Text)
              → lookup p cells ≡ (
                  if any (λ row. row.role == admin && row.permission == p) office.role_rows
                  then some true
                  else if contains p (all_permissions core_permissions)
                  then some false
                  else none)))
get_permission_matrix-cell_example =
    get_permission_matrix-cell memory core_permissions office office.role_rows refl admin
