-- ===== src/Infra/Laws.antt =====
-- Documented behaviour of the database, of Redis and of the JSON codec, as hypotheses.
use golang_base.Base.{
  ℕ, Bool, false, ◌&&◌, Option, none, some, List, [], ◌∷◌, Text, ◌==◌, ◌≡◌, ◌≢◌, ◌⊎◌, if◌then◌else◌,
}
use golang_base.Domain.{User, Role, UserRole, RolePermission, UserPermission, PermissionChangesLog}
use golang_base.Infra.Monad.{Act}
use golang_base.Domain.Errors.{ok}
use golang_base.Infra.{Database, Redis, Codec}

-- The rows of one role, by permission.
abbrev pub find_role : Text → List RolePermission → Option RolePermission
find_role p [] = none
find_role p (row ∷ rows) = if row.permission == p then some row else find_role p rows

abbrev pub find_user : Text → List UserPermission → Option UserPermission
find_user p [] = none
find_user p (row ∷ rows) = if row.permission == p then some row else find_user p rows

-- The primary key: among the rows of one role no permission stands twice.
abbrev pub IsKeyed : List RolePermission → Type 0
IsKeyed [] = Unit
IsKeyed (row ∷ rows) = (find_role row.permission rows ≡ none) × IsKeyed rows

-- Row of a table by primary key, and what `ON CONFLICT ... SET expires_at` makes of it.
abbrev pub merge_role : Option RolePermission → RolePermission → RolePermission
merge_role none new = new
merge_role (some old) new = record old { expires_at = new.expires_at }

-- The table role_permissions, seen through its primary key (role, permission).
pub record RoleTableLaws {S : Type 0} (db : Database S) : Type 0 where
  pub row : S → Text → Text → Option RolePermission
  pub select_row :
      (role : Text) (s : S) (rows : List RolePermission)
      → db.select_role_permissions role s ≡ ok rows
      → (p : Text) → find_role p rows ≡ row s role p
  pub select_keyed :
      (role : Text) (s : S) (rows : List RolePermission)
      → db.select_role_permissions role s ≡ ok rows
      → IsKeyed rows
  pub upsert_row :
      (new : RolePermission) (s : S)
      → (db.upsert_role_permission new s).0 ≡ ok tt
      → (role p : Text)
      → row (db.upsert_role_permission new s).1 role p ≡ (
          if new.role == role && new.permission == p
          then some (merge_role (row s role p) new)
          else row s role p)
  pub delete_row :
      (role' p' : Text) (s : S)
      → (db.delete_role_permission role' p' s).0 ≡ ok tt
      → (role p : Text)
      → row (db.delete_role_permission role' p' s).1 role p
        ≡ (if role' == role && p' == p then none else row s role p)

-- A statement changes what it names and nothing else, and one that fails changes nothing: what the
-- reads of the two permission tables return on either side of a write. Users have identifiers of
-- type UUID: `same_id` is whether two texts are spellings of one of them.
pub record FrameLaws {S : Type 0} (db : Database S) : Type 0 where
  pub same_id : Text → Text → Bool
  pub upsert_role_roles :
      (new : RolePermission) (s : S) (role : Text)
      → (new.role ≢ role) ⊎ ((db.upsert_role_permission new s).0 ≢ ok tt)
      → db.select_role_permissions role (db.upsert_role_permission new s).1
        ≡ db.select_role_permissions role s
  pub upsert_role_users :
      (new : RolePermission) (s : S) (user_id : Text)
      → db.select_user_permissions user_id (db.upsert_role_permission new s).1
        ≡ db.select_user_permissions user_id s
  pub delete_role_roles :
      (role' p : Text) (s : S) (role : Text)
      → (role' ≢ role) ⊎ ((db.delete_role_permission role' p s).0 ≢ ok tt)
      → db.select_role_permissions role (db.delete_role_permission role' p s).1
        ≡ db.select_role_permissions role s
  pub delete_role_users :
      (role' p : Text) (s : S) (user_id : Text)
      → db.select_user_permissions user_id (db.delete_role_permission role' p s).1
        ≡ db.select_user_permissions user_id s
  pub upsert_user_users :
      (new : UserPermission) (s : S) (user_id : Text)
      → (same_id new.user_id user_id ≡ false) ⊎ ((db.upsert_user_permission new s).0 ≢ ok tt)
      → db.select_user_permissions user_id (db.upsert_user_permission new s).1
        ≡ db.select_user_permissions user_id s
  pub upsert_user_roles :
      (new : UserPermission) (s : S) (role : Text)
      → db.select_role_permissions role (db.upsert_user_permission new s).1
        ≡ db.select_role_permissions role s
  pub delete_user_users :
      (id p : Text) (s : S) (user_id : Text)
      → (same_id id user_id ≡ false) ⊎ ((db.delete_user_permission id p s).0 ≢ ok tt)
      → db.select_user_permissions user_id (db.delete_user_permission id p s).1
        ≡ db.select_user_permissions user_id s
  pub delete_user_roles :
      (id p : Text) (s : S) (role : Text)
      → db.select_role_permissions role (db.delete_user_permission id p s).1
        ≡ db.select_role_permissions role s
  pub insert_log_roles :
      (log : PermissionChangesLog) (s : S) (role : Text)
      → db.select_role_permissions role (db.insert_log log s).1 ≡ db.select_role_permissions role s
  pub insert_log_users :
      (log : PermissionChangesLog) (s : S) (user_id : Text)
      → db.select_user_permissions user_id (db.insert_log log s).1
        ≡ db.select_user_permissions user_id s

-- Both permission tables read the same in two states.
abbrev pub SameRows : {S : Type 0} → Database S → S → S → Type 0
SameRows db s s' =
    ((role : Text) → db.select_role_permissions role s' ≡ db.select_role_permissions role s)
    × ((id : Text) → db.select_user_permissions id s' ≡ db.select_user_permissions id s)

abbrev pub KeepsRows : {S A : Type 0} → Database S → Act S A → Type 0
KeepsRows {S} db m = (s : S) → SameRows db s (m s).1

-- The statements on users and roles touch neither permission table. The DELETE of a user is not
-- among them, since it cascades.
pub record AccountFrameLaws {S : Type 0} (db : Database S) : Type 0 where
  pub insert_user : (u : User) → KeepsRows db (db.insert_user u)
  pub insert_user_roles : (rows : List UserRole) → KeepsRows db (db.insert_user_roles rows)
  pub update_user : (u : User) → KeepsRows db (db.update_user u)
  pub delete_user_roles : (id : Text) → KeepsRows db (db.delete_user_roles id)
  pub insert_role_ignore : (role : Role) → KeepsRows db (db.insert_role_ignore role)

-- Redis: a DEL that succeeds removes its key, and neither DEL nor SET makes up a value.
pub record RedisLaws {R : Type 0} (redis : Redis R) : Type 0 where
  pub get_del :
      (k : Text) (r : R) → (redis.del k r).0 ≡ ok tt → redis.get k (redis.del k r).1 ≡ none
  pub get_del_other :
      (k j v : Text) (r : R) → redis.get j (redis.del k r).1 ≡ some v → redis.get j r ≡ some v
  pub get_set :
      (k v j w : Text) (ttl : ℕ) (r : R)
      → redis.get j (redis.set k v ttl r) ≡ some w
      → ((j ≡ k) × (w ≡ v)) ⊎ (redis.get j r ≡ some w)

-- Unmarshalling what was marshalled gives it back.
pub record CodecLaws (codec : Codec) : Type 0 where
  pub unmarshal-marshal_roles :
      (rows : List RolePermission) (b : Text)
      → codec.marshal_roles rows ≡ some b
      → codec.unmarshal_roles b ≡ some rows
  pub unmarshal-marshal_users :
      (rows : List UserPermission) (b : Text)
      → codec.marshal_users rows ≡ some b
      → codec.unmarshal_users b ≡ some rows
