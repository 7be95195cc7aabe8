-- ===== src/Middleware/Permission/Passing.antt =====
-- Who passes AllowedPermissions, row by row (internal/middleware/permission.go).
use mathlib.Core.List.{Memᴰ}
use golang_base.Base.{
  ℕ, true, some, List, [], ◌∷◌, Text, contains, any, any_of_contains, contains_of_any, ◌≡◌, refl,
  ◌∙◌, sym, ◌↔◌, inl, inr, arith, Bool-cases,
}
use golang_base.Domain.{role_super_admin, User, RolePermission, UserPermission}
use golang_base.Domain.Errors.{ok, Result-cases}
use golang_base.Infra.{Redis, Codec, World}
use golang_base.Infra.Laws.{RedisLaws, CodecLaws}
use golang_base.Middleware.Permission.{
  CachedAuthRepository, next, match_permission, some_role_row_matches, some_user_row_matches,
  check_access,
}
use golang_base.Middleware.Permission.Patterns.{Matches, match_permission_iff}
use golang_base.Middleware.Permission.Coherence.{IsCoherent}
use golang_base.Middleware.Permission.Access.{
  role_passes, user_passes, decision, check_access-decision,
}

module _ {S : Type 0} (repo : CachedAuthRepository S) where
  -- Someone may pass: a super admin, or a row of one of the roles or of the user whose permission
  -- one of the patterns matches. Neither `is_granted` nor `expires_at` of the row is looked at.
  pub data MayPass (patterns : List Text) (user_id : Text) (user : User) (s : S) : Type 0 where
    superuser : contains role_super_admin user.roles ≡ true → MayPass patterns user_id user s
    by_role_row :
        (role : Text) (rows : List RolePermission) (row : RolePermission) (q : Text)
        → contains role user.roles ≡ true
        → repo.get_role_permissions role s ≡ ok rows
        → Memᴰ row rows
        → contains q patterns ≡ true
        → Matches row.permission q
        → MayPass patterns user_id user s
    by_user_row :
        (rows : List UserPermission) (row : UserPermission) (q : Text)
        → repo.get_user_permissions user_id s ≡ ok rows
        → Memᴰ row rows
        → contains q patterns ≡ true
        → Matches row.permission q
        → MayPass patterns user_id user s

-- Membership in rows, as the two loops test it.
module _ (patterns : List Text) where
  role_row_sound :
      (rows : List RolePermission)
      → some_role_row_matches patterns rows ≡ true
      → (row : RolePermission) × Memᴰ row rows × (match_permission row.permission patterns ≡ true)
  unfolding some_role_row_matches
  role_row_sound [] h = cc
  role_row_sound (row ∷ rows) h = elim (Bool-cases (match_permission row.permission patterns)) [
    | inl here ↦ (row, Memᴰ.head refl, here)
    | inr there ↦
        let (r, listed, m) = role_row_sound rows (ground arith) in (r, Memᴰ.tail listed, m)
  ]

  role_row_complete :
      (row : RolePermission) (rows : List RolePermission)
      → Memᴰ row rows
      → match_permission row.permission patterns ≡ true
      → some_role_row_matches patterns rows ≡ true
  unfolding some_role_row_matches
  role_row_complete row [] m h = elim m [ ]
  role_row_complete row (r ∷ rows) (Memᴰ.head e) h = ground arith
  role_row_complete row (r ∷ rows) (Memᴰ.tail m) h = ground (arith, role_row_complete row rows m h)

  user_row_sound :
      (rows : List UserPermission)
      → some_user_row_matches patterns rows ≡ true
      → (row : UserPermission) × Memᴰ row rows × (match_permission row.permission patterns ≡ true)
  unfolding some_user_row_matches
  user_row_sound [] h = cc
  user_row_sound (row ∷ rows) h = elim (Bool-cases (match_permission row.permission patterns)) [
    | inl here ↦ (row, Memᴰ.head refl, here)
    | inr there ↦
        let (r, listed, m) = user_row_sound rows (ground arith) in (r, Memᴰ.tail listed, m)
  ]

  user_row_complete :
      (row : UserPermission) (rows : List UserPermission)
      → Memᴰ row rows
      → match_permission row.permission patterns ≡ true
      → some_user_row_matches patterns rows ≡ true
  unfolding some_user_row_matches
  user_row_complete row [] m h = elim m [ ]
  user_row_complete row (r ∷ rows) (Memᴰ.head e) h = ground arith
  user_row_complete row (r ∷ rows) (Memᴰ.tail m) h = ground (arith, user_row_complete row rows m h)

module _ {S : Type 0} (repo : CachedAuthRepository S) (patterns : List Text) where
  role_passes_sound :
      (role : Text) (s : S)
      → role_passes repo patterns s role ≡ true
      → (rows : List RolePermission) × (repo.get_role_permissions role s ≡ ok rows)
        × (some_role_row_matches patterns rows ≡ true)
  role_passes_sound role s h = elim (Result-cases (repo.get_role_permissions role s)) [
    | inl (rows, e) ↦ (rows, e, ground arith)
    | inr (e, failed) ↦ absurd (ground arith)
  ]

  user_passes_sound :
      (user_id : Text) (s : S)
      → user_passes repo patterns user_id s ≡ true
      → (rows : List UserPermission) × (repo.get_user_permissions user_id s ≡ ok rows)
        × (some_user_row_matches patterns rows ≡ true)
  user_passes_sound user_id s h = elim (Result-cases (repo.get_user_permissions user_id s)) [
    | inl (rows, e) ↦ (rows, e, ground arith)
    | inr (e, failed) ↦ absurd (ground arith)
  ]

  by_roles :
      (user_id : Text) (user : User) (s : S)
      → any (role_passes repo patterns s) user.roles ≡ true
      → MayPass repo patterns user_id user s
  by_roles user_id user s h =
      let (role, listed, passes) = contains_of_any (role_passes repo patterns s) user.roles h in
      let (rows, read, found) = role_passes_sound role s passes in
      let (row, among, m) = role_row_sound patterns rows found in
      let (q, stands, matches) = (match_permission_iff row.permission patterns).0 m in
      by_role_row role rows row q listed read among stands matches

  by_user :
      (user_id : Text) (user : User) (s : S)
      → user_passes repo patterns user_id s ≡ true
      → MayPass repo patterns user_id user s
  by_user user_id user s h =
      let (rows, read, found) = user_passes_sound user_id s h in
      let (row, among, m) = user_row_sound patterns rows found in
      let (q, stands, matches) = (match_permission_iff row.permission patterns).0 m in
      by_user_row rows row q read among stands matches

  decision_sound :
      (c : ℕ) (id : Text) (user : User) (s : S)
      → repo.get_user_by_id (c ∷ id) s ≡ ok user
      → decision repo patterns (some (c ∷ id)) s ≡ next
      → MayPass repo patterns (c ∷ id) user s
  unfolding decision
  decision_sound c id user s found h = elim (Bool-cases (contains role_super_admin user.roles)) [
    | inl super ↦ superuser super
    | inr plain ↦ elim (Bool-cases (any (role_passes repo patterns s) user.roles)) [
      | inl roles ↦ by_roles (c ∷ id) user s roles
      | inr none_of_roles ↦ by_user (c ∷ id) user s (ground arith)
    ]
  ]

  decision_complete :
      (c : ℕ) (id : Text) (user : User) (s : S)
      → repo.get_user_by_id (c ∷ id) s ≡ ok user
      → MayPass repo patterns (c ∷ id) user s
      → decision repo patterns (some (c ∷ id)) s ≡ next
  unfolding decision
  decision_complete c id user s found (superuser super) = ground arith
  decision_complete c id user s found (by_role_row role rows row q listed read among stands m) =
      let matched = (match_permission_iff row.permission patterns).1 (q, stands, m) in
      ground (
        arith,
        role_row_complete patterns row rows among matched,
        any_of_contains (role_passes repo patterns s) role user.roles listed,
      )
  decision_complete c id user s found (by_user_row rows row q read among stands m) =
      let matched = (match_permission_iff row.permission patterns).1 (q, stands, m) in
      ground (arith, user_row_complete patterns row rows among matched)

module _ {S R : Type 0} (redis : Redis R) (codec : Codec) (repo : CachedAuthRepository S)
    (redis_laws : RedisLaws redis) (codec_laws : CodecLaws codec) where
  -- Under the laws of Redis and of the codec, with a coherent cache: the request of a known user
  -- goes on exactly when the user is a super admin or a pattern matches the permission of some row
  -- of one of the user's roles or of the user.
  pub check_access-MayPass :
      (patterns : List Text) (c : ℕ) (id : Text) (user : User) (w : World S R)
      → IsCoherent redis codec repo w
      → repo.get_user_by_id (c ∷ id) w.store ≡ ok user
      → ((check_access redis codec repo patterns (some (c ∷ id)) w).0 ≡ next)
        ↔ MayPass repo patterns (c ∷ id) user w.store
  check_access-MayPass patterns c id user w h found =
      let same =
        (check_access-decision redis codec repo redis_laws codec_laws patterns (some (c ∷ id)) w
          h).0 in
      (
        λ e. decision_sound repo patterns c id user w.store found (sym same ∙ e),
        λ m. same ∙ decision_complete repo patterns c id user w.store found m,
      )
