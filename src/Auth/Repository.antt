-- ===== src/Auth/Repository.antt =====
-- internal/modules/auth/repository.go: one function per method. A method's arguments that Go
-- evaluates from the environment, `uuid.NewV7()` and `time.Now()`, are arguments here.
pub mod Queries
use golang_base.Base.{
  Bool, true, false, not, Option, none, some, List, [], ◌∷◌, ◌++◌, Text, ◌==◌, Dict, lookup, insert,
  map, if◌then◌else◌,
}
use golang_base.Domain.{
  Instant, zero_time, User, Role, UserRole, RolePermission, UserPermission, PermissionChangesLog,
}
use golang_base.Domain.Errors.{Result, ok, err}
use golang_base.Infra.{Database}
use golang_base.Infra.Monad.{Act, ◌>>=◌, ◌>>◌, give, ignore, skip}

-- `assignedBy ...string`: its first value, if there is one and it is not empty.
unfoldable pub actor_of : List Text → Option Text
actor_of [] = none
actor_of (a ∷ rest) = if a == [] then none else some a

-- The first value of an optional argument.
abbrev pub first_or {ℓ} : {A : Type ℓ} → A → List A → A
first_or d [] = d
first_or d (a ∷ rest) = a

-- The loop that makes the rows of user_roles.
unfoldable pub user_roles_of : Text → Option Text → List Text → List UserRole
user_roles_of id actor [] = []
user_roles_of id actor (role ∷ roles) =
    record { user_id = id; role = role; assigned_by = actor; created_at = zero_time }
    ∷ user_roles_of id actor roles

-- The roles of a read whose error is dropped: nil after a failure.
abbrev pub roles_or_nil : Result (List Text) → List Text
roles_or_nil (ok roles) = roles
roles_or_nil (err e) = []

-- `result[rp.Role] = append(result[rp.Role], rp.Permission)` over the rows.
unfoldable pub group_by_role : Dict (List Text) → List RolePermission → Dict (List Text)
group_by_role m [] = m
group_by_role m (rp ∷ rows) =
    let old : List Text = elim (lookup rp.role m) [ none ↦ [] | some perms ↦ perms ] in
    group_by_role (insert rp.role (old ++ rp.permission ∷ []) m) rows

module _ {S : Type 0} (db : Database S) where
  -- The last step of CreateUser and UpdateUser: the roles, in one INSERT, if there are any.
  unfoldable pub assign_roles : User → List Text → Act S (Unit {0})
  assign_roles user assigned_by = elim user.roles [
    | [] ↦ skip
    | role ∷ roles ↦
        db.insert_user_roles (user_roles_of user.id (actor_of assigned_by) (role ∷ roles))
  ]

  -- The user that comes back has its identifier.
  unfoldable pub create_user : Result Text → User → List Text → Act S User
  create_user uuid user assigned_by = do
    id ← give (if user.id == [] then uuid else ok user.id)
    db.insert_user (record user { id = id })
    assign_roles (record user { id = id }) assigned_by
    give (ok (record user { id = id }))

  unfoldable pub get_user_by_id : Text → S → Result User
  get_user_by_id id s = elim (db.select_user_by_id id s) [
    | err e ↦ err e
    | ok user ↦ ok (record user { roles = roles_or_nil (db.select_user_roles user.id s) })
  ]

  unfoldable pub get_user_by_email : Text → S → Result User
  get_user_by_email email s = elim (db.select_user_by_email email s) [
    | err e ↦ err e
    | ok user ↦ ok (record user { roles = roles_or_nil (db.select_user_roles user.id s) })
  ]

  -- The error of the DELETE is dropped.
  unfoldable pub update_user : User → List Text → Act S (Unit {0})
  update_user user assigned_by = do
    db.update_user user
    ignore (db.delete_user_roles user.id)
    assign_roles user assigned_by

  unfoldable pub delete_user : Text → Act S (Unit {0})
  delete_user id = db.delete_user id

  unfoldable pub create_role : Role → Act S (Unit {0})
  create_role role = db.insert_role_ignore role

  unfoldable pub grant_role_permission :
      Instant → Text → Text → List (Option Instant) → Act S (Unit {0})
  grant_role_permission now role permission expires_at = db.upsert_role_permission (record {
    role = role;
    permission = permission;
    created_at = now;
    expires_at = first_or none expires_at;
  })

  unfoldable pub revoke_role_permission : Text → Text → Act S (Unit {0})
  revoke_role_permission role permission = db.delete_role_permission role permission

  unfoldable pub get_role_permissions : Text → S → Result (List RolePermission)
  get_role_permissions role s = db.select_role_permissions role s

  unfoldable pub grant_user_permission :
      Instant → Text → Text → Bool → Option Instant → List (Option Text) → Act S (Unit {0})
  grant_user_permission now user_id permission is_granted expires_at assigned_by =
      db.upsert_user_permission (record {
        user_id = user_id;
        permission = permission;
        is_granted = is_granted;
        assigned_by = first_or none assigned_by;
        created_at = now;
        expires_at = expires_at;
      })

  unfoldable pub revoke_user_permission : Text → Text → Act S (Unit {0})
  revoke_user_permission user_id permission = db.delete_user_permission user_id permission

  unfoldable pub get_user_permissions : Text → S → Result (List UserPermission)
  get_user_permissions user_id s = db.select_user_permissions user_id s

  unfoldable pub log_permission_change : Result Text → PermissionChangesLog → Act S (Unit {0})
  log_permission_change uuid log = do
    id ← give (if log.id == [] then uuid else ok log.id)
    db.insert_log (record log { id = id })

  unfoldable pub get_all_role_permissions : S → Result (Dict (List Text))
  get_all_role_permissions s = elim (db.select_all_role_permissions s) [
    | err e ↦ err e
    | ok rows ↦ ok (group_by_role [] rows)
  ]

  unfoldable pub get_all_roles : S → Result (List Text)
  get_all_roles s = elim (db.select_roles s) [
    | err e ↦ err e
    | ok roles ↦ ok (map (λ r. r.role) roles)
  ]
