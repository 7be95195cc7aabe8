-- ===== src/Auth/Service/Spec.antt =====
-- What "may do" means, row by row, without the service's sets and maps: an unexpired override of
-- the user decides, and where there is none, an unexpired row of one of the roles.
use golang_base.Base.{
  Bool, true, false, not, ◌&&◌, Option, none, some, List, [], ◌∷◌, Text, ◌==◌, contains, any, ◌≡◌,
  if◌then◌else◌,
}
use golang_base.Domain.{Instant, role_super_admin, RolePermission, UserPermission}
use golang_base.Domain.Errors.{ok, err}
use golang_base.Infra.{Database}
use golang_base.Auth.Service.{is_expired}

-- The role row gives the permission now.
abbrev pub gives : Instant → Text → RolePermission → Bool
gives now p row = row.permission == p && not (is_expired now row.expires_at)

-- What the user's rows say of the permission now; a later row stands over an earlier one.
abbrev pub override_of : Instant → Text → List UserPermission → Option Bool
override_of now p [] = none
override_of now p (row ∷ rows) = elim (override_of now p rows) [
  | some b ↦ some b
  | none ↦
      if row.permission == p && not (is_expired now row.expires_at)
      then some row.is_granted
      else none
]

module _ {S : Type 0} (db : Database S) where
  abbrev pub override_now : Instant → Text → Text → S → Option Bool
  override_now now user_id p s = elim (db.select_user_permissions user_id s) [
    | err e ↦ none
    | ok rows ↦ override_of now p rows
  ]

  abbrev pub role_gives : Instant → Text → Text → S → Bool
  role_gives now p role s = elim (db.select_role_permissions role s) [
    | err e ↦ false
    | ok rows ↦ any (gives now p) rows
  ]

  -- A user with these roles may do `p` now. Rows that cannot be read count as absent.
  pub data Permitted (now : Instant) (user_id : Text) (roles : List Text) (p : Text) (s : S)
      : Type 0 where
    superuser : contains role_super_admin roles ≡ true → Permitted now user_id roles p s
    by_override : override_now now user_id p s ≡ some true → Permitted now user_id roles p s
    by_role :
        override_now now user_id p s ≡ none
        → (role : Text) → contains role roles ≡ true
        → role_gives now p role s ≡ true
        → Permitted now user_id roles p s
