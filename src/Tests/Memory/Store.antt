-- ===== src/Tests/Memory/Store.antt =====
-- A database whose tables are lists and whose statements do not fail, and a Redis that is a map.
use golang_base.Base.{
  Bool, false, ◌&&◌, List, [], ◌∷◌, ◌++◌, Text, ◌==◌, eq_iff, Dict, lookup, insert, erase,
  lookup-insert, lookup-erase, eq_refl, ◌≡◌, refl, ap, ◌≢◌, ◌⊎◌, inl, inr, arith, length,
  if◌then◌else◌, Bool-cases,
}
use golang_base.Domain.{User, Role, UserRole, RolePermission, UserPermission, PermissionChangesLog}
use golang_base.Domain.Errors.{Result, ok, err, not_found}
use golang_base.Infra.{Database, Redis, Write}
use golang_base.Infra.Laws.{RoleTableLaws, FrameLaws, AccountFrameLaws, RedisLaws}
use golang_base.Tests.Memory.Rows.{
  role_row, select_role, upsert_role, delete_role, select_role-IsKeyed, find_role-select_role,
  role_row-upsert_role, role_row-delete_role, select_role-upsert, select_role-delete,
}

pub record Store : Type 0 where
  pub users : List User
  pub user_roles : List UserRole
  pub roles : List Role
  pub role_rows : List RolePermission
  pub user_rows : List UserPermission
  pub logs : List PermissionChangesLog

unfoldable pub find_by : (User → Bool) → List User → Result User
find_by p [] = err not_found
find_by p (u ∷ us) = if p u then ok u else find_by p us

unfoldable pub roles_of : Text → List UserRole → List Text
roles_of id [] = []
roles_of id (r ∷ rs) = let rest = roles_of id rs in if r.user_id == id then r.role ∷ rest else rest

unfoldable pub without_roles : Text → List UserRole → List UserRole
without_roles id [] = []
without_roles id (r ∷ rs) =
    let rest = without_roles id rs in if r.user_id == id then rest else r ∷ rest

unfoldable pub without_user : Text → List User → List User
without_user id [] = []
without_user id (u ∷ us) = let rest = without_user id us in if u.id == id then rest else u ∷ rest

unfoldable pub of_user : Text → List UserPermission → List UserPermission
of_user id [] = []
of_user id (r ∷ rs) = let rest = of_user id rs in if r.user_id == id then r ∷ rest else rest

unfoldable pub without_row : Text → Text → List UserPermission → List UserPermission
without_row id p [] = []
without_row id p (r ∷ rs) =
    let rest = without_row id p rs in
    if r.user_id == id && r.permission == p then rest else r ∷ rest

abbrev pub changes : (Store → Store) → Write Store
changes f s = (ok tt, f s)

abbrev pub memory : Database Store
memory = record {
  select_user_by_id = λ id s. find_by (λ u. u.id == id) s.users;
  select_user_by_email = λ email s. find_by (λ u. u.email == email) s.users;
  select_user_roles = λ id s. ok (roles_of id s.user_roles);
  select_users = λ q s. ok s.users;
  count_users = λ q s. ok (length s.users);
  insert_user = λ u. changes (λ s. record s { users = u ∷ s.users });
  insert_user_roles = λ rs. changes (λ s. record s { user_roles = rs ++ s.user_roles });
  update_user = λ u. changes (λ s. record s { users = u ∷ without_user u.id s.users });
  delete_user_roles = λ id. changes (λ s. record s { user_roles = without_roles id s.user_roles });
  delete_user = λ id. changes (λ s. record s { users = without_user id s.users });
  select_roles = λ s. ok s.roles;
  insert_role_ignore = λ r. changes (λ s. record s { roles = r ∷ s.roles });
  select_role_permissions = λ role s. ok (select_role role s.role_rows);
  select_all_role_permissions = λ s. ok s.role_rows;
  upsert_role_permission =
      λ new. changes (λ s. record s { role_rows = upsert_role new s.role_rows });
  delete_role_permission =
      λ role p. changes (λ s. record s { role_rows = delete_role role p s.role_rows });
  select_user_permissions = λ id s. ok (of_user id s.user_rows);
  upsert_user_permission = λ new.
      changes
        (λ s. record s { user_rows = new ∷ without_row new.user_id new.permission s.user_rows });
  delete_user_permission =
      λ id p. changes (λ s. record s { user_rows = without_row id p s.user_rows });
  insert_log = λ log. changes (λ s. record s { logs = log ∷ s.logs });
  select_logs = λ q s. ok s.logs;
  count_logs = λ q s. ok (length s.logs);
}

ne_test : (a b : Text) → a ≢ b → (a == b) ≡ false
ne_test a b h = ground (arith, eq_iff a b)

pub apart_test :
    {A : Type 0} (a b : Text) (r : Result A) {x : A}
    → (a ≢ b) ⊎ (r ≢ ok x)
    → r ≡ ok x
    → (a == b) ≡ false
apart_test a b r (inl h) e = ne_test a b h
apart_test a b r (inr h) e = absurd (h e)

pub apart_ids :
    {A : Type 0} (b : Bool) (r : Result A) {x : A} → (b ≡ false) ⊎ (r ≢ ok x) → r ≡ ok x → b ≡ false
apart_ids b r (inl h) e = h
apart_ids b r (inr h) e = absurd (h e)

pub of_user-without_row :
    (id p other : Text) (rows : List UserPermission)
    → (id == other) ≡ false
    → of_user other (without_row id p rows) ≡ of_user other rows
unfolding of_user without_row
of_user-without_row id p other [] h = refl
of_user-without_row id p other (r ∷ rs) h =
    ground (arith, of_user-without_row id p other rs h, eq_iff r.user_id id)

pub of_user-upsert :
    (new : UserPermission) (other : Text) (rows : List UserPermission)
    → (new.user_id == other) ≡ false
    → of_user other (new ∷ without_row new.user_id new.permission rows) ≡ of_user other rows
unfolding of_user
of_user-upsert new other rows h =
    ground (arith, of_user-without_row new.user_id new.permission other rows h)

pub ok-injective : {A : Type 0} (a b : A) → ok a ≡ ok b → a ≡ b
ok-injective a b h = cc

unfoldable pub memory_role_laws : RoleTableLaws memory
memory_role_laws = record {
  row = λ s role p. role_row s.role_rows role p;
  select_row = λ role s rows e p.
      rw (← ok-injective (select_role role s.role_rows) rows e)
        (find_role-select_role role p s.role_rows);
  select_keyed = λ role s rows e.
      rw (← ok-injective (select_role role s.role_rows) rows e)
        (select_role-IsKeyed role s.role_rows);
  upsert_row = λ new s e role p. role_row-upsert_role new s.role_rows role p;
  delete_row = λ role' p' s e role p. role_row-delete_role role' p' s.role_rows role p;
}

unfoldable pub memory-FrameLaws : FrameLaws memory
memory-FrameLaws = record {
  same_id = ◌==◌;
  upsert_role_roles = λ new s role h.
      ap ok (select_role-upsert new s.role_rows role (apart_test new.role role (ok tt) h refl));
  upsert_role_users = λ new s id. refl;
  delete_role_roles = λ role' p s role h.
      ap ok (select_role-delete role' p s.role_rows role (apart_test role' role (ok tt) h refl));
  delete_role_users = λ role' p s id. refl;
  upsert_user_users = λ new s id h.
      ap ok (of_user-upsert new id s.user_rows (apart_ids (new.user_id == id) (ok tt) h refl));
  upsert_user_roles = λ new s role. refl;
  delete_user_users = λ id p s other h.
      ap ok (of_user-without_row id p other s.user_rows (apart_ids (id == other) (ok tt) h refl));
  delete_user_roles = λ id p s role. refl;
  insert_log_roles = λ log s role. refl;
  insert_log_users = λ log s id. refl;
}

pub memory-AccountFrameLaws : AccountFrameLaws memory
memory-AccountFrameLaws = record {
  insert_user = λ u s. (λ role. refl, λ id. refl);
  insert_user_roles = λ rows s. (λ role. refl, λ id. refl);
  update_user = λ u s. (λ role. refl, λ id. refl);
  delete_user_roles = λ id s. (λ role. refl, λ other. refl);
  insert_role_ignore = λ r s. (λ role. refl, λ id. refl);
}

abbrev pub map_redis : Redis (Dict Text)
map_redis = record {
  get = lookup;
  set = λ k v ttl r. insert k v r;
  del = λ k r. (ok tt, erase k r);
}

pub map_redis_laws : RedisLaws map_redis
map_redis_laws = record {
  get_del = λ k r e. ground (arith, lookup-erase k k r, eq_refl k);
  get_del_other = λ k j v r h. ground (arith, lookup-erase k j r);
  get_set = λ k v j w ttl r h. elim (Bool-cases (k == j)) [
    | inl same ↦ inl (ground (arith, eq_iff k j), ground (arith, lookup-insert k j v r))
    | inr other ↦ inr (ground (arith, lookup-insert k j v r))
  ];
}
