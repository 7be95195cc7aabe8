-- ===== src/Auth/Service/Grants/Bulk.antt =====
-- UpdateRolePermissions (internal/modules/auth/service.go) makes the role's rows those of the list.
use golang_base.Base.{
  Bool, true, false, not, ◌&&◌, ◌||◌, Option, none, some, List, [], ◌∷◌, Text, ◌==◌, eq_iff,
  contains, Dict, has_key, ◌≡◌, refl, inl, inr, arith, if◌then◌else◌, Bool-cases,
}
use golang_base.Domain.{Instant, RolePermission}
use golang_base.Domain.Errors.{ok, Result-cases}
use golang_base.Infra.{Database, Redis, World, on_store}
use golang_base.Infra.Laws.{RoleTableLaws, find_role}
use golang_base.Auth.Repository
use golang_base.Auth.Service.{add_all}
use golang_base.Auth.Service.Grants.{
  permissions_of, grant_missing, revoke_dropped, update_role_permissions,
  invalidate_role_permission_cache,
}

abbrev pub is_some {ℓ} : {A : Type ℓ} → Option A → Bool
is_some none = false
is_some (some a) = true

pub contains-permissions_of :
    (p : Text) (rows : List RolePermission)
    → contains p (permissions_of rows) ≡ is_some (find_role p rows)
unfolding contains permissions_of
contains-permissions_of p [] = refl
contains-permissions_of p (row ∷ rows) = ground (arith, contains-permissions_of p rows)

module _ {S R : Type 0} (db : Database S) (redis : Redis R) (laws : RoleTableLaws db) where
  -- One grant makes its row present and leaves the others.
  grant_row :
      (now : Instant) (role p : Text) (w : World S R)
      → (on_store (Repository.grant_role_permission db now role p []) w).0 ≡ ok tt
      → (r q : Text)
      → ((is_some
            (laws.row (on_store (Repository.grant_role_permission db now role p []) w).1.store r q))
          ≡ ((role == r && p == q) || is_some (laws.row w.store r q)))
        × ((role == r && p == q) ≡ false
            → laws.row (on_store (Repository.grant_role_permission db now role p []) w).1.store r q
              ≡ laws.row w.store r q)
  unfolding Repository.grant_role_permission
  grant_row now role p w h r q =
      let row : RolePermission = record {
        role = role;
        permission = p;
        created_at = now;
        expires_at = none;
      } in
      let law = laws.upsert_row row w.store h r q in
      (ground (arith, law), λ other. ground (arith, law))

  pub grant_missing_rows :
      (now : Instant) (role : Text) (existing : Dict Bool) (perms : List Text) (w : World S R)
      → (grant_missing db redis now role existing perms w).0 ≡ ok tt
      → (r q : Text)
      → (is_some (laws.row (grant_missing db redis now role existing perms w).1.store r q) ≡ (
          (role == r && (contains q perms && not (has_key q existing)))
          || is_some (laws.row w.store r q)))
        × ((role == r && (contains q perms && not (has_key q existing))) ≡ false
            → laws.row (grant_missing db redis now role existing perms w).1.store r q
              ≡ laws.row w.store r q)
  unfolding grant_missing contains
  grant_missing_rows now role existing [] w h r q = (ground arith, λ other. refl)
  grant_missing_rows now role existing (p ∷ perms) w h r q =
      elim (Bool-cases (has_key p existing)) [
        | inl had ↦
            let step : grant_missing db redis now role existing (p ∷ perms) w
                ≡ grant_missing db redis now role existing perms w =
              rw (had, grant_missing) refl in
            let ih = grant_missing_rows now role existing perms w (rw step at h) r q in
            rw step (ground (arith, eq_iff p q, ih.0), ground (arith, eq_iff p q, ih.1))
        | inr new ↦
            elim (Result-cases (on_store (Repository.grant_role_permission db now role p []) w).0) [
              | inr (e, failed) ↦ absurd (ground arith)
              | inl (u, e) ↦
                  let w1 = (on_store (Repository.grant_role_permission db now role p []) w).1 in
                  let step : grant_missing db redis now role existing (p ∷ perms) w
                      ≡ grant_missing db redis now role existing perms w1 =
                    ground arith in
                  let ih = grant_missing_rows now role existing perms w1 (rw step at h) r q in
                  let one = grant_row now role p w e r q in
                  rw step (
                    ground (arith, eq_iff p q, ih.0, one.0),
                    λ other. ground (arith, eq_iff p q, ih.1, one.1),
                  )
            ]
      ]

  revoke_row :
      (role p : Text) (w : World S R)
      → (on_store (Repository.revoke_role_permission db role p) w).0 ≡ ok tt
      → (r q : Text)
      → laws.row (on_store (Repository.revoke_role_permission db role p) w).1.store r q
        ≡ (if role == r && p == q then none else laws.row w.store r q)
  unfolding Repository.revoke_role_permission
  revoke_row role p w h r q = laws.delete_row role p w.store h r q

  pub revoke_dropped_rows :
      (role : Text) (kept : Dict Bool) (existing : List RolePermission) (w : World S R)
      → (revoke_dropped db redis role kept existing w).0 ≡ ok tt
      → (r q : Text)
      → laws.row (revoke_dropped db redis role kept existing w).1.store r q ≡ (
          if role == r && (contains q (permissions_of existing) && not (has_key q kept))
          then none
          else laws.row w.store r q)
  unfolding revoke_dropped contains permissions_of
  revoke_dropped_rows role kept [] w h r q = ground arith
  revoke_dropped_rows role kept (p ∷ existing) w h r q =
      elim (Bool-cases (has_key p.permission kept)) [
        | inl stays ↦
            let step : revoke_dropped db redis role kept (p ∷ existing) w
                ≡ revoke_dropped db redis role kept existing w =
              rw (stays, revoke_dropped) refl in
            rw step (
              ground (
                arith,
                eq_iff p.permission q,
                revoke_dropped_rows role kept existing w (rw step at h) r q,
              ))
        | inr goes ↦
            elim (Result-cases
              (on_store (Repository.revoke_role_permission db role p.permission) w).0) [
                | inr (e, failed) ↦ absurd (ground arith)
                | inl (u, e) ↦
                    let w1 =
                      (on_store (Repository.revoke_role_permission db role p.permission) w).1 in
                    let step : revoke_dropped db redis role kept (p ∷ existing) w
                        ≡ revoke_dropped db redis role kept existing w1 =
                      ground arith in
                    rw step (
                      ground (
                        arith,
                        eq_iff p.permission q,
                        revoke_row role p.permission w e r q,
                        revoke_dropped_rows role kept existing w1 (rw step at h) r q,
                      ))
              ]
      ]

  invalidate-store :
      (role : Text) (w : World S R)
      → (invalidate_role_permission_cache redis role w).1.store ≡ w.store
  unfolding invalidate_role_permission_cache
  invalidate-store role w = ground arith

  -- What a successful update has gone through.
  pub update_steps :
      (now : Instant) (role : Text) (permissions : List Text) (w : World S R)
      → (update_role_permissions db redis now role permissions w).0 ≡ ok tt
      → (existing : List RolePermission) × (db.select_role_permissions role w.store ≡ ok existing)
        × ((grant_missing db redis now role (add_all (permissions_of existing) []) permissions w).0
            ≡ ok tt)
        × ((revoke_dropped db redis role
              (add_all permissions [])
              existing
              (grant_missing db redis now role
                (add_all (permissions_of existing) [])
                permissions
                w).1).0
            ≡ ok tt)
        × ((update_role_permissions db redis now role permissions w).1.store
            ≡ (revoke_dropped db redis role
                (add_all permissions [])
                existing
                (grant_missing db redis now role
                  (add_all (permissions_of existing) [])
                  permissions
                  w).1).1.store)
  unfolding update_role_permissions Repository.get_role_permissions
  update_steps now role permissions w h =
      elim (Result-cases (db.select_role_permissions role w.store)) [
        | inr (e, failed) ↦ absurd (ground arith)
        | inl (existing, e) ↦
            let w1 =
              grant_missing db redis now role (add_all (permissions_of existing) []) permissions
                w in
            let w2 = revoke_dropped db redis role (add_all permissions []) existing w1.1 in
            (existing, e, ground arith, ground arith, ground (arith, invalidate-store role w2.1))
      ]
