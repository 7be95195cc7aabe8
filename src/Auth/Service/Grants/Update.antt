-- ===== src/Auth/Service/Grants/Update.antt =====
-- What UpdateRolePermissions (internal/modules/auth/service.go) leaves in the table, and what
-- GetRolePermissions reads from it afterwards.
use golang_base.Base.{
  Bool, true, false, not, ◌&&◌, Option, none, some, List, [], ◌∷◌, Text, ◌==◌, eq_iff, eq_refl,
  contains, Dict, has_key, lookup, any, ◌≡◌, refl, inl, inr, arith, Bool-cases,
}
use golang_base.Domain.{Instant, RolePermission}
use golang_base.Domain.Errors.{ok, Result-cases}
use golang_base.Infra.{Database, Redis, World, on_store}
use golang_base.Infra.Laws.{RoleTableLaws, find_role, IsKeyed}
use golang_base.Auth.Repository
use golang_base.Auth.Service.{add_all, is_expired, get_role_permissions}
use golang_base.Auth.Service.Spec.{gives}
use golang_base.Auth.Service.Access.Sets.{has_key-add_all, contains-unexpired_permissions}
use golang_base.Auth.Service.Grants.{permissions_of, grant_missing, update_role_permissions}
use golang_base.Auth.Service.Grants.Bulk.{
  is_some, contains-permissions_of, grant_missing_rows, revoke_dropped_rows, update_steps,
}

-- A permission whose row was there and has run out by `now`.
abbrev pub has_run_out : Instant → Option RolePermission → Bool
has_run_out now none = false
has_run_out now (some row) = is_expired now row.expires_at

any-gives :
    (now : Instant) (q : Text) (rows : List RolePermission)
    → IsKeyed rows
    → any (gives now q) rows
      ≡ (elim (find_role q rows) [ none ↦ false | some row ↦ not (is_expired now row.expires_at) ])
any-gives now q [] h = refl
any-gives now q (row ∷ rows) h = ground (arith, any-gives now q rows h.1, eq_iff row.permission q)

-- No row, or one that never runs out.
abbrev unlimited : Option RolePermission → Bool
unlimited none = true
unlimited (some row) = elim row.expires_at [ none ↦ true | some at ↦ false ]

module _ {S R : Type 0} (db : Database S) (redis : Redis R) (laws : RoleTableLaws db) where
  -- The grants of an update never run out.
  grant-unlimited :
      (now : Instant) (role p r q : Text) (w : World S R)
      → (on_store (Repository.grant_role_permission db now role p []) w).0 ≡ ok tt
      → unlimited (laws.row w.store r q) ≡ true
      → unlimited
          (laws.row (on_store (Repository.grant_role_permission db now role p []) w).1.store r q)
        ≡ true
  unfolding Repository.grant_role_permission
  grant-unlimited now role p r q w h free =
      let row : RolePermission = record {
        role = role;
        permission = p;
        created_at = now;
        expires_at = none;
      } in
      ground (arith, laws.upsert_row row w.store h r q)

  grant_missing-unlimited :
      (now : Instant) (role r q : Text) (had : Dict Bool) (perms : List Text) (w : World S R)
      → (grant_missing db redis now role had perms w).0 ≡ ok tt
      → unlimited (laws.row w.store r q) ≡ true
      → unlimited (laws.row (grant_missing db redis now role had perms w).1.store r q) ≡ true
  unfolding grant_missing
  grant_missing-unlimited now role r q had [] w h free = free
  grant_missing-unlimited now role r q had (p ∷ perms) w h free =
      elim (Bool-cases (has_key p had)) [
        | inl skipped ↦
            let step : grant_missing db redis now role had (p ∷ perms) w
                ≡ grant_missing db redis now role had perms w =
              rw (skipped, grant_missing) refl in
            rw step (grant_missing-unlimited now role r q had perms w (rw step at h) free)
        | inr new ↦
            elim (Result-cases (on_store (Repository.grant_role_permission db now role p []) w).0) [
              | inr (e, failed) ↦ absurd (ground arith)
              | inl (u, e) ↦
                  let w1 = (on_store (Repository.grant_role_permission db now role p []) w).1 in
                  let step : grant_missing db redis now role had (p ∷ perms) w
                      ≡ grant_missing db redis now role had perms w1 =
                    ground arith in
                  rw step (
                    grant_missing-unlimited now role r q had perms w1 (rw step at h)
                      (grant-unlimited now role p r q w e free))
            ]
      ]

  -- GetRolePermissions lists exactly the permissions whose row has not run out.
  pub get_role_permissions-row :
      (now : Instant) (role q : Text) (s : S) {perms : List Text}
      → get_role_permissions db now role s ≡ ok perms
      → contains q perms ≡ (elim (laws.row s role q) [
        | none ↦ false
        | some row ↦ not (is_expired now row.expires_at)
      ])
  unfolding get_role_permissions Repository.get_role_permissions
  get_role_permissions-row now role q s h =
      elim (Result-cases (db.select_role_permissions role s)) [
        | inr (e, failed) ↦ absurd (ground arith)
        | inl (rows, e) ↦ ground (
          arith,
          contains-unexpired_permissions now q rows,
          any-gives now q rows (laws.select_keyed role s rows e),
          laws.select_row role s rows e q,
        )
      ]

  -- Under the laws of the statements on roles' rows: a successful UpdateRolePermissions leaves the
  -- role with rows for exactly the permissions of the list; a row that was there and stays is left
  -- as it was, and so is every row of another role.
  pub update_role_permissions-rows :
      (now : Instant) (role : Text) (permissions : List Text) (w : World S R)
      → (update_role_permissions db redis now role permissions w).0 ≡ ok tt
      → (r q : Text)
      → let after = laws.row (update_role_permissions db redis now role permissions w).1.store in
        (is_some (after role q) ≡ contains q permissions)
        × (contains q permissions ≡ true
            → is_some (laws.row w.store role q) ≡ true
            → after role q ≡ laws.row w.store role q)
        × ((role == r) ≡ false → after r q ≡ laws.row w.store r q)
  unfolding lookup
  update_role_permissions-rows now role permissions w h r q =
      let (existing, e, granted, revoked, same) =
        update_steps db redis laws now role permissions w h in
      let had = add_all (permissions_of existing) [] in
      let kept = add_all permissions [] in
      let w1 = (grant_missing db redis now role had permissions w).1 in
      let was : has_key q had ≡ is_some (laws.row w.store role q) = ground (
        arith,
        has_key-add_all q (permissions_of existing) [],
        contains-permissions_of q existing,
        laws.select_row role w.store existing e q,
      ) in
      let was' : contains q (permissions_of existing) ≡ is_some (laws.row w.store role q) =
        ground
          (arith, contains-permissions_of q existing, laws.select_row role w.store existing e q) in
      let listed : has_key q kept ≡ contains q permissions =
        ground (arith, has_key-add_all q permissions []) in
      let grants = grant_missing_rows db redis laws now role had permissions w granted in
      let revokes = revoke_dropped_rows db redis laws role kept existing w1 revoked in
      rw same (
        ground (arith, was, was', listed, (grants role q).0, revokes role q, eq_refl role),
        ground (arith, was, was', listed, (grants role q).1, revokes role q, eq_refl role),
        ground (arith, (grants r q).1, revokes r q),
      )

  -- A permission that an update adds has no expiry.
  update_role_permissions-unlimited :
      (now : Instant) (role q : Text) (permissions : List Text) (w : World S R)
      → (update_role_permissions db redis now role permissions w).0 ≡ ok tt
      → laws.row w.store role q ≡ none
      → unlimited
          (laws.row (update_role_permissions db redis now role permissions w).1.store role q)
        ≡ true
  update_role_permissions-unlimited now role q permissions w h absent =
      let (existing, e, granted, revoked, same) =
        update_steps db redis laws now role permissions w h in
      let had = add_all (permissions_of existing) [] in
      let w1 = (grant_missing db redis now role had permissions w).1 in
      rw same (
        ground (
          arith,
          grant_missing-unlimited now role role q had permissions w granted,
          revoke_dropped_rows db redis laws role (add_all permissions []) existing w1 revoked role
              q,
        ))

  -- Under the laws of the statements on roles' rows: after a successful UpdateRolePermissions, a
  -- successful GetRolePermissions at any instant lists exactly the permissions of the update, less
  -- those whose row was there before and has run out by then: the update keeps such a row and does
  -- not renew it.
  pub update_role_permissions-read :
      (now later : Instant) (role : Text) (permissions : List Text) (w : World S R)
      {perms : List Text}
      → (update_role_permissions db redis now role permissions w).0 ≡ ok tt
      → get_role_permissions db later role
          (update_role_permissions db redis now role permissions w).1.store
        ≡ ok perms
      → (q : Text)
      → contains q perms
        ≡ (contains q permissions && not (has_run_out later (laws.row w.store role q)))
  update_role_permissions-read now later role permissions w h read q =
      let rows = update_role_permissions-rows now role permissions w h role q in
      ground (
        arith,
        get_role_permissions-row later role q
            (update_role_permissions db redis now role permissions w).1.store read,
        rows.0,
        rows.1,
        update_role_permissions-unlimited now role q permissions w h,
      )
