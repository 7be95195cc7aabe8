-- ===== src/Seed/Matrix.antt =====
-- cmd/seed/seeders/role_permissions.go: what the rows are after the roles were seeded.
use golang_base.Base.{
  Bool, true, false, ◌||◌, ◌&&◌, Option, none, some, List, [], ◌∷◌, ◌++◌, Text, codes, ◌==◌,
  contains, Dict, leb, length, eq_refl, ◌≡◌, refl, ap, ◌∙◌, arith,
}
use golang_base.Domain.{Instant, zero_time, Role, RolePermission}
use golang_base.Domain.Errors.{Error, ok}
use golang_base.Infra.{Database}
use golang_base.Infra.Laws.{RoleTableLaws, merge_role}
use golang_base.Auth.Repository
use golang_base.Auth.Service.Grants.Bulk.{is_some}
use golang_base.Seed.{grant_all, seed_roles}

-- What the seeding relies on. A role that fits its column can be inserted, or is there; the
-- permissions of a role can be inserted, if they fit their column and the role is there, which the
-- foreign key asks for; neither statement touches what the other one writes.
pub record SeedLaws {S : Type 0} (db : Database S) (laws : RoleTableLaws db) : Type 0 where
  pub is_role : S → Text → Bool
  pub insert_role_works :
      (r : Role) (s : S) → leb (length r.role) 50 ≡ true → (db.insert_role_ignore r s).0 ≡ ok tt
  pub insert_role_role :
      (r : Role) (s : S) (role : Text)
      → (db.insert_role_ignore r s).0 ≡ ok tt
      → is_role (db.insert_role_ignore r s).1 role ≡ (r.role == role || is_role s role)
  pub insert_role_rows :
      (r : Role) (s : S) (role p : Text)
      → laws.row (db.insert_role_ignore r s).1 role p ≡ laws.row s role p
  pub upsert_works :
      (new : RolePermission) (s : S)
      → is_role s new.role ≡ true
      → leb (length new.permission) 100 ≡ true
      → (db.upsert_role_permission new s).0 ≡ ok tt
  pub upsert_role :
      (new : RolePermission) (s : S) (role : Text)
      → is_role (db.upsert_role_permission new s).1 role ≡ is_role s role

-- The roles and the permissions fit their columns, VARCHAR(50) and VARCHAR(100).
abbrev pub permissions_fit : List Text → Bool
permissions_fit [] = true
permissions_fit (p ∷ perms) = leb (length p) 100 && permissions_fit perms

abbrev pub matrix_fits : Dict (List Text) → Bool
matrix_fits [] = true
matrix_fits ((role, perms) ∷ matrix) =
    leb (length role) 50 && permissions_fit perms && matrix_fits matrix

-- The matrix lists the permission for the role.
abbrev pub listed : Text → Text → Dict (List Text) → Bool
listed role p [] = false
listed role p ((r, perms) ∷ matrix) = r == role && contains p perms || listed role p matrix

module _ {S : Type 0} (db : Database S) (describe : Error → Text) (laws : RoleTableLaws db)
    (seed : SeedLaws db laws) where
  abbrev has_row : S → Text → Text → Bool
  has_row s role p = is_some (laws.row s role p)

  merged :
      (old : Option RolePermission) (new : RolePermission)
      → is_some (some (merge_role old new)) ≡ true
  merged none new = refl
  merged (some old) new = refl

  grant-has_row :
      (now : Instant) (role q other p : Text) (s : S)
      → seed.is_role s role ≡ true
      → leb (length q) 100 ≡ true
      → has_row (Repository.grant_role_permission db now role q [] s).1 other p
        ≡ (role == other && q == p || has_row s other p)
  unfolding Repository.grant_role_permission
  grant-has_row now role q other p s there fits = ground (
    arith,
    laws.upsert_row (record { role = role; permission = q; created_at = now; expires_at = none }) s
        (seed.upsert_works _ s there fits) other p,
  )

  grant-is_role :
      (now : Instant) (role q : Text) (s : S)
      → seed.is_role s role ≡ true
      → seed.is_role (Repository.grant_role_permission db now role q [] s).1 role ≡ true
  unfolding Repository.grant_role_permission
  grant-is_role now role q s there = seed.upsert_role _ s role ∙ there

  grant_all-ok :
      (now : Instant) (role : Text) (perms : List Text) (s : S)
      → (grant_all db describe now role perms s).0 ≡ ok tt
  unfolding grant_all
  grant_all-ok now role [] s = refl
  grant_all-ok now role (q ∷ perms) s =
      grant_all-ok now role perms (Repository.grant_role_permission db now role q [] s).1

  grant_all-has_row :
      (now : Instant) (role other p : Text) (perms : List Text) (s : S)
      → seed.is_role s role ≡ true
      → permissions_fit perms ≡ true
      → has_row (grant_all db describe now role perms s).1 other p
        ≡ (role == other && contains p perms || has_row s other p)
  unfolding grant_all contains
  grant_all-has_row now role other p [] s there fit = ground arith
  grant_all-has_row now role other p (q ∷ perms) s there fit =
      grant_all-has_row now role other p perms
        (Repository.grant_role_permission db now role q [] s).1 (grant-is_role now role q s there)
        (ground arith)
      ∙ ground (arith, grant-has_row now role q other p s there (ground arith))

  -- Under the laws of the tables, among them that a permission can only be inserted for a role
  -- that is there: if the matrix fits the columns, then after the roles were seeded a role has a
  -- row for a permission exactly if the matrix lists it for the role, or the row was there before.
  pub seed_roles-has_row :
      (now : Instant) (matrix : Dict (List Text)) (role p : Text) (s : S)
      → matrix_fits matrix ≡ true
      → is_some (laws.row (seed_roles db describe now matrix s).1 role p)
        ≡ (listed role p matrix || is_some (laws.row s role p))
  unfolding seed_roles Repository.create_role
  seed_roles-has_row now [] role p s fit = refl
  seed_roles-has_row now ((r, perms) ∷ matrix) role p s fit =
      let new : Role = record {
        role = r;
        description = codes "Role: " ++ r;
        created_at = zero_time;
      } in
      let s1 = (db.insert_role_ignore new s).1 in
      let s2 = (grant_all db describe now r perms s1).1 in
      let step : (seed_roles db describe now ((r, perms) ∷ matrix) s).1
          ≡ (seed_roles db describe now matrix s2).1 =
        ground (arith, grant_all-ok now r perms s1) in
      let there : seed.is_role s1 r ≡ true = ground (
        arith,
        seed.insert_role_role new s r (seed.insert_role_works new s (ground arith)),
        eq_refl r,
      ) in
      ap (λ t. is_some (laws.row t role p)) step
      ∙ seed_roles-has_row now matrix role p s2 (ground arith)
      ∙ ground (
        arith,
        grant_all-has_row now r role p perms s1 there (ground arith),
        seed.insert_role_rows new s role p,
      )
