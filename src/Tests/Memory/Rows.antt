-- ===== src/Tests/Memory/Rows.antt =====
-- The table role_permissions as a list of rows, of which the first with its key counts.
use golang_base.Base.{
  false, ◌&&◌, Option, none, some, List, [], ◌∷◌, Text, ◌==◌, eq_iff, eq_refl, ◌≡◌, refl, arith,
  if◌then◌else◌,
}
use golang_base.Domain.{RolePermission}
use golang_base.Infra.Laws.{find_role, IsKeyed, merge_role}

-- The rows of a role.
of_role : Text → List RolePermission → List RolePermission
of_role role [] = []
of_role role (row ∷ rows) =
    let rest = of_role role rows in if row.role == role then row ∷ rest else rest

drop_permission : Text → List RolePermission → List RolePermission
drop_permission p [] = []
drop_permission p (row ∷ rows) =
    let rest = drop_permission p rows in if row.permission == p then rest else row ∷ rest

distinct : List RolePermission → List RolePermission
distinct [] = []
distinct (row ∷ rows) = row ∷ drop_permission row.permission (distinct rows)

unfoldable pub role_row : List RolePermission → Text → Text → Option RolePermission
role_row [] role p = none
role_row (row ∷ rows) role p =
    if row.role == role && row.permission == p then some row else role_row rows role p

unfoldable pub select_role : Text → List RolePermission → List RolePermission
unfolding of_role distinct drop_permission
select_role role rows = distinct (of_role role rows)

unfoldable pub upsert_role : RolePermission → List RolePermission → List RolePermission
upsert_role new [] = new ∷ []
upsert_role new (row ∷ rows) =
    if row.role == new.role && row.permission == new.permission
    then merge_role (some row) new ∷ rows
    else row ∷ upsert_role new rows

unfoldable pub delete_role : Text → Text → List RolePermission → List RolePermission
delete_role role p [] = []
delete_role role p (row ∷ rows) =
    let rest = delete_role role p rows in
    if row.role == role && row.permission == p then rest else row ∷ rest

find_role-drop :
    (p q : Text) (rows : List RolePermission)
    → find_role q (drop_permission p rows) ≡ (if p == q then none else find_role q rows)
unfolding drop_permission
find_role-drop p q [] = ground arith
find_role-drop p q (row ∷ rows) =
    ground
      (arith, find_role-drop p q rows, eq_iff row.permission p, eq_iff row.permission q, eq_iff p q)

drop-IsKeyed :
    (p : Text) (rows : List RolePermission) → IsKeyed rows → IsKeyed (drop_permission p rows)
unfolding drop_permission
drop-IsKeyed p [] h = tt
drop-IsKeyed p (row ∷ rows) h =
    ground (arith, drop-IsKeyed p rows h.1, find_role-drop p row.permission rows)

distinct-IsKeyed : (rows : List RolePermission) → IsKeyed (distinct rows)
unfolding distinct
distinct-IsKeyed [] = tt
distinct-IsKeyed (row ∷ rows) = (
  ground
      (arith, find_role-drop row.permission row.permission (distinct rows), eq_refl row.permission),
  drop-IsKeyed row.permission (distinct rows) (distinct-IsKeyed rows),
)

find_role-distinct :
    (q : Text) (rows : List RolePermission) → find_role q (distinct rows) ≡ find_role q rows
unfolding distinct
find_role-distinct q [] = refl
find_role-distinct q (row ∷ rows) =
    ground (arith, find_role-distinct q rows, find_role-drop row.permission q (distinct rows))

find_role-of_role :
    (role q : Text) (rows : List RolePermission)
    → find_role q (of_role role rows) ≡ role_row rows role q
unfolding of_role role_row
find_role-of_role role q [] = refl
find_role-of_role role q (row ∷ rows) = ground (arith, find_role-of_role role q rows)

pub select_role-IsKeyed :
    (role : Text) (rows : List RolePermission) → IsKeyed (select_role role rows)
unfolding select_role
select_role-IsKeyed role rows = distinct-IsKeyed (of_role role rows)

pub find_role-select_role :
    (role q : Text) (rows : List RolePermission)
    → find_role q (select_role role rows) ≡ role_row rows role q
unfolding select_role
find_role-select_role role q rows =
    ground (arith, find_role-distinct q (of_role role rows), find_role-of_role role q rows)

pub role_row-upsert_role :
    (new : RolePermission) (rows : List RolePermission) (role p : Text)
    → role_row (upsert_role new rows) role p ≡ (
        if new.role == role && new.permission == p
        then some (merge_role (role_row rows role p) new)
        else role_row rows role p)
unfolding role_row upsert_role
role_row-upsert_role new [] role p = ground arith
role_row-upsert_role new (row ∷ rows) role p = ground (
  arith,
  role_row-upsert_role new rows role p,
  eq_iff row.role new.role,
  eq_iff row.permission new.permission,
  eq_iff row.role role,
  eq_iff row.permission p,
  eq_iff new.role role,
  eq_iff new.permission p,
)

pub role_row-delete_role :
    (role' p' : Text) (rows : List RolePermission) (role p : Text)
    → role_row (delete_role role' p' rows) role p
      ≡ (if role' == role && p' == p then none else role_row rows role p)
unfolding role_row delete_role
role_row-delete_role role' p' [] role p = ground arith
role_row-delete_role role' p' (row ∷ rows) role p = ground (
  arith,
  role_row-delete_role role' p' rows role p,
  eq_iff row.role role',
  eq_iff row.permission p',
  eq_iff row.role role,
  eq_iff row.permission p,
  eq_iff role' role,
  eq_iff p' p,
)

-- The rows of another role stay as they are.
of_role-upsert :
    (new : RolePermission) (rows : List RolePermission) (role : Text)
    → (new.role == role) ≡ false
    → of_role role (upsert_role new rows) ≡ of_role role rows
unfolding of_role upsert_role
of_role-upsert new [] role h = ground arith
of_role-upsert new (row ∷ rows) role h =
    ground (arith, of_role-upsert new rows role h, eq_iff row.role new.role)

of_role-delete :
    (role' p : Text) (rows : List RolePermission) (role : Text)
    → (role' == role) ≡ false
    → of_role role (delete_role role' p rows) ≡ of_role role rows
unfolding of_role delete_role
of_role-delete role' p [] role h = refl
of_role-delete role' p (row ∷ rows) role h =
    ground (arith, of_role-delete role' p rows role h, eq_iff row.role role')

pub select_role-upsert :
    (new : RolePermission) (rows : List RolePermission) (role : Text)
    → (new.role == role) ≡ false
    → select_role role (upsert_role new rows) ≡ select_role role rows
unfolding select_role
select_role-upsert new rows role h = rw (of_role-upsert new rows role h)

pub select_role-delete :
    (role' p : Text) (rows : List RolePermission) (role : Text)
    → (role' == role) ≡ false
    → select_role role (delete_role role' p rows) ≡ select_role role rows
unfolding select_role
select_role-delete role' p rows role h = rw (of_role-delete role' p rows role h)
