-- ===== src/Tests/Seeds.antt =====
-- The theorem on the seeding of the roles, on the database of lists.
use golang_base.Base.{any, keys, sort_strings, ◌==◌, ◌||◌, [], ◌≡◌, refl}
use golang_base.Domain.Permissions.{all_permissions, get_permissions}
use golang_base.Seed.{permission_matrix, seed_roles}
use golang_base.Seed.Matrix.{SeedLaws, listed, seed_roles-has_row}
use golang_base.Auth.Service.Grants.Bulk.{is_some}
use golang_base.Tests.Memory.Rows.{role_row}
use golang_base.Tests.Memory.Store.{memory, memory_role_laws}
use golang_base.Tests.Samples.{admin, office, user_edit}

memory-SeedLaws : SeedLaws memory memory_role_laws
unfolding memory_role_laws
memory-SeedLaws = record {
  is_role = λ s role. any (λ r. r.role == role) s.roles;
  insert_role_works = λ r s fits. refl;
  insert_role_role = λ r s role done. refl;
  insert_role_rows = λ r s role p. refl;
  upsert_works = λ new s there fits. refl;
  upsert_role = λ new s role. refl;
}

seed_roles-has_row_example :
    is_some (
      role_row
        (seed_roles memory (λ e. []) 5 (permission_matrix []) office).1.role_rows
        admin
        user_edit)
    ≡ (listed admin user_edit (permission_matrix [])
        || is_some (role_row office.role_rows admin user_edit))
unfolding memory_role_laws permission_matrix all_permissions sort_strings keys get_permissions
seed_roles-has_row_example =
    seed_roles-has_row memory (λ e. []) memory_role_laws memory-SeedLaws 5 (permission_matrix [])
      admin user_edit office refl
