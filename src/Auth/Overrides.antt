-- ===== src/Auth/Overrides.antt =====
-- The two readings of a user's override: the service (internal/modules/auth/service.go) looks at
-- `is_granted`, the middleware (internal/middleware/permission.go) does not.
use mathlib.Core.List.{Memᴰ}
use golang_base.Base.{
  ℕ, Bool, false, some, List, [], ◌∷◌, Text, ◌==◌, eq_of_test, eq_refl, contains, ◌≡◌, refl, sym,
  arith, inl, inr, Bool-cases, Option-cases,
}
use golang_base.Domain.{Instant, role_super_admin, User, UserPermission}
use golang_base.Domain.Errors.{ok, Result-cases}
use golang_base.Infra.{Database, Redis, Codec, World}
use golang_base.Infra.Laws.{RedisLaws, CodecLaws}
use golang_base.Auth.Repository
use golang_base.Auth.Module.{auth_repository}
use golang_base.Auth.Service.{has_permission}
use golang_base.Auth.Service.Spec.{
  override_of, override_now, Permitted, superuser, by_override, by_role,
}
use golang_base.Auth.Service.Access.{has_permission-Permitted}
use golang_base.Middleware.Permission.{next, check_access}
use golang_base.Middleware.Permission.Patterns.{exact}
use golang_base.Middleware.Permission.Coherence.{IsCoherent}
use golang_base.Middleware.Permission.Passing.{by_user_row, check_access-MayPass}

-- An override in force stands in a row for that very permission.
override_row :
    (now : Instant) (p : Text) (granted : Bool) (rows : List UserPermission)
    → override_of now p rows ≡ some granted
    → (row : UserPermission) × Memᴰ row rows × (p ≡ row.permission)
override_row now p granted [] h = cc
override_row now p granted (row ∷ rows) h = elim (Option-cases (override_of now p rows)) [
  | inr (b, later) ↦ let (r, m, e) = override_row now p b rows later in (r, Memᴰ.tail m, e)
  | inl absent ↦ elim (Bool-cases (row.permission == p)) [
    | inl same ↦ (row, Memᴰ.head refl, ground (arith, eq_of_test row.permission p same))
    | inr other ↦ absurd (ground arith)
  ]
]

module _ {S R : Type 0} (db : Database S) (redis : Redis R) (codec : Codec)
    (redis_laws : RedisLaws redis) (codec_laws : CodecLaws codec) where
  override_rows :
      (now : Instant) (user_id p : Text) (granted : Bool) (s : S)
      → override_now db now user_id p s ≡ some granted
      → (rows : List UserPermission) × (db.select_user_permissions user_id s ≡ ok rows)
        × (override_of now p rows ≡ some granted)
  override_rows now user_id p granted s h =
      elim (Result-cases (db.select_user_permissions user_id s)) [
        | inl (rows, e) ↦ (rows, e, ground arith)
        | inr (e, failed) ↦ absurd (ground arith)
      ]

  revoked-not-Permitted :
      (now : Instant) (user_id p : Text) (roles : List Text) (s : S)
      → contains role_super_admin roles ≡ false
      → override_now db now user_id p s ≡ some false
      → Permitted db now user_id roles p s
      → ⊥
  revoked-not-Permitted now user_id p roles s plain revoked (superuser h) = cc
  revoked-not-Permitted now user_id p roles s plain revoked (by_override h) = cc
  revoked-not-Permitted now user_id p roles s plain revoked (by_role free role listed gives) = cc

  -- Under the laws of Redis and of the codec, with a coherent cache: if the override of a known
  -- user who is no super admin revokes a permission and is in force, HasPermission denies the
  -- permission, and yet the route that asks for exactly this permission lets the user pass.
  pub revoked_override-next :
      (now : Instant) (c : ℕ) (id p : Text) (user : User) (w : World S R)
      → IsCoherent redis codec (auth_repository db) w
      → Repository.get_user_by_id db (c ∷ id) w.store ≡ ok user
      → contains role_super_admin user.roles ≡ false
      → override_now db now (c ∷ id) p w.store ≡ some false
      → (has_permission db now (c ∷ id) p w.store ≡ false)
        × ((check_access redis codec (auth_repository db) (p ∷ []) (some (c ∷ id)) w).0 ≡ next)
  unfolding auth_repository Repository.get_user_permissions contains
  revoked_override-next now c id p user w h found plain revoked =
      let (rows, read, override) = override_rows now (c ∷ id) p false w.store revoked in
      let (row, among, same) = override_row now p false rows override in
      (
        elim (Bool-cases (has_permission db now (c ∷ id) p w.store)) [
          | inl granted ↦ absurd (
              revoked-not-Permitted now (c ∷ id) p user.roles w.store plain revoked
                ((has_permission-Permitted db now (c ∷ id) p w.store user found).0 granted))
          | inr denied ↦ denied
        ],
        (check_access-MayPass redis codec (auth_repository db) redis_laws codec_laws (p ∷ []) c id
              user w h found).1
            (by_user_row rows row p read among (ground (arith, eq_refl p)) (exact (sym same))),
      )
