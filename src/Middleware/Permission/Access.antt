-- ===== src/Middleware/Permission/Access.antt =====
-- What AllowedPermissions decides (internal/middleware/permission.go): the cache plays no part in
-- it, and the rows alone say who passes.
use golang_base.Base.{
  ℕ, Bool, false, ◌||◌, Option, none, some, List, [], ◌∷◌, Text, codes, contains, any, ◌≡◌, refl,
  ◌∙◌, inl, inr, arith, if◌then◌else◌, Bool-cases,
}
use golang_base.Domain.{role_super_admin, User}
use golang_base.Domain.Errors.{ok, err, Result-cases}
use golang_base.Infra.{Redis, Codec, World}
use golang_base.Infra.Laws.{RedisLaws, CodecLaws}
use golang_base.Middleware.Permission.{
  CachedAuthRepository, Decision, next, unauthorized, forbidden, cached_get_role_permissions,
  cached_get_user_permissions, some_role_row_matches, some_user_row_matches, check_roles,
  check_user, check_access,
}
use golang_base.Middleware.Permission.Coherence.{
  IsCoherent, cached_get_role-fst, cached_get_user-fst, cached_get_role-store,
  cached_get_user-store, cached_get_role-IsCoherent, cached_get_user-IsCoherent,
}

module _ {S : Type 0} (repo : CachedAuthRepository S) where
  -- The tests of the two loops on rows that come straight from the repository.
  abbrev pub role_passes : List Text → S → Text → Bool
  role_passes patterns s role = elim (repo.get_role_permissions role s) [
    | err e ↦ false
    | ok rows ↦ some_role_row_matches patterns rows
  ]

  abbrev pub user_passes : List Text → Text → S → Bool
  user_passes patterns user_id s = elim (repo.get_user_permissions user_id s) [
    | err e ↦ false
    | ok rows ↦ some_user_row_matches patterns rows
  ]

  -- The decision on rows that come straight from the repository.
  unfoldable pub decision : List Text → Option Text → S → Decision
  decision patterns none s = unauthorized (codes "unauthorized")
  decision patterns (some []) s = unauthorized (codes "unauthorized")
  decision patterns (some (c ∷ id)) s = elim (repo.get_user_by_id (c ∷ id) s) [
    | err e ↦ unauthorized (codes "user not found")
    | ok user ↦
        if contains role_super_admin user.roles
          || (any (role_passes patterns s) user.roles || user_passes patterns (c ∷ id) s)
        then next
        else forbidden (codes "insufficient permissions")
  ]

module _ {S R : Type 0} (redis : Redis R) (codec : Codec) (repo : CachedAuthRepository S)
    (redis_laws : RedisLaws redis) (codec_laws : CodecLaws codec) where
  check_roles_lem :
      (patterns roles : List Text) (w : World S R)
      → IsCoherent redis codec repo w
      → ((check_roles redis codec repo patterns roles w).0
          ≡ any (role_passes repo patterns w.store) roles)
        × ((check_roles redis codec repo patterns roles w).1.store ≡ w.store)
        × IsCoherent redis codec repo (check_roles redis codec repo patterns roles w).1
  unfolding check_roles
  check_roles_lem patterns [] w h = (refl, refl, h)
  check_roles_lem patterns (role ∷ roles) w h =
      let w' = (cached_get_role_permissions redis codec repo role w).1 in
      let same : w'.store ≡ w.store = cached_get_role-store redis codec repo role w in
      let h' : IsCoherent redis codec repo w' =
        cached_get_role-IsCoherent redis codec repo redis_laws codec_laws role w h in
      let read = cached_get_role-fst redis codec repo role w h in
      let later = check_roles_lem patterns roles w' h' in
      elim (Result-cases (repo.get_role_permissions role w.store)) [
        | inr (e, failed) ↦
            rw (read, failed, check_roles) (ground (arith, later.0), later.1 ∙ same, later.2)
        | inl (rows, e) ↦ elim (Bool-cases (some_role_row_matches patterns rows)) [
          | inl found ↦ rw (read, e, found, check_roles) (ground arith, same, h')
          | inr missed ↦
              rw (read, e, missed, check_roles) (ground (arith, later.0), later.1 ∙ same, later.2)
        ]
      ]

  check_user-snd :
      (patterns : List Text) (user_id : Text) (w : World S R)
      → (check_user redis codec repo patterns user_id w).1
        ≡ (cached_get_user_permissions redis codec repo user_id w).1
  unfolding check_user
  check_user-snd patterns user_id w = ground arith

  check_user_lem :
      (patterns : List Text) (user_id : Text) (w : World S R)
      → IsCoherent redis codec repo w
      → ((check_user redis codec repo patterns user_id w).0 ≡ (
          if user_passes repo patterns user_id w.store
          then next
          else forbidden (codes "insufficient permissions")))
        × ((check_user redis codec repo patterns user_id w).1.store ≡ w.store)
        × IsCoherent redis codec repo (check_user redis codec repo patterns user_id w).1
  unfolding check_user
  check_user_lem patterns user_id w h =
      let read = cached_get_user-fst redis codec repo user_id w h in
      (
        ground arith,
        ground (arith, cached_get_user-store redis codec repo user_id w),
        rw (check_user-snd patterns user_id w)
            (cached_get_user-IsCoherent redis codec repo redis_laws codec_laws user_id w h),
      )

  -- The two loops, for a user who is no super admin.
  check_plain :
      (patterns : List Text) (c : ℕ) (id : Text) (user : User) (w : World S R)
      → repo.get_user_by_id (c ∷ id) w.store ≡ ok user
      → contains role_super_admin user.roles ≡ false
      → IsCoherent redis codec repo w
      → ((check_access redis codec repo patterns (some (c ∷ id)) w).0
          ≡ decision repo patterns (some (c ∷ id)) w.store)
        × ((check_access redis codec repo patterns (some (c ∷ id)) w).1.store ≡ w.store)
        × IsCoherent redis codec repo (check_access redis codec repo patterns (some (c ∷ id)) w).1
  unfolding check_access decision
  check_plain patterns c id user w e plain h =
      let roles = check_roles_lem patterns user.roles w h in
      let w' = (check_roles redis codec repo patterns user.roles w).1 in
      let last = check_user_lem patterns (c ∷ id) w' roles.2 in
      elim (Bool-cases (check_roles redis codec repo patterns user.roles w).0) [
        | inl found ↦ rw (e, plain, found, check_access) (ground (arith, roles.0), roles.1, roles.2)
        | inr missed ↦
            rw (e, plain, missed, check_access)
              (ground (arith, roles.0, last.0, roles.1), last.1 ∙ roles.1, last.2)
      ]

  -- Under the laws of Redis and of the codec, with a coherent cache: the check decides as on rows
  -- that come straight from the repository, it changes no table, and the cache stays coherent.
  pub check_access-decision :
      (patterns : List Text) (user_id : Option Text) (w : World S R)
      → IsCoherent redis codec repo w
      → ((check_access redis codec repo patterns user_id w).0
          ≡ decision repo patterns user_id w.store)
        × ((check_access redis codec repo patterns user_id w).1.store ≡ w.store)
        × IsCoherent redis codec repo (check_access redis codec repo patterns user_id w).1
  unfolding check_access decision
  check_access-decision patterns none w h = (refl, refl, h)
  check_access-decision patterns (some []) w h = (refl, refl, h)
  check_access-decision patterns (some (c ∷ id)) w h =
      elim (Result-cases (repo.get_user_by_id (c ∷ id) w.store)) [
        | inr (e, failed) ↦ rw (failed, check_access) (rw (failed, decision) refl, refl, h)
        | inl (user, e) ↦ elim (Bool-cases (contains role_super_admin user.roles)) [
          | inl super ↦ rw (e, super, check_access) (rw (e, decision) (ground arith), refl, h)
          | inr plain ↦ check_plain patterns c id user w e plain h
        ]
      ]
