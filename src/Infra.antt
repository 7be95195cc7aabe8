-- ===== src/Infra.antt =====
-- What the program calls and does not implement, as interfaces: the SQL statements that
-- internal/modules/auth/repository.go sends through bun, the Redis client, the JSON codec of the
-- cached rows. Infra/Laws.antt states the documented behaviour that the theorems rest on.
pub mod Monad
pub mod Laws
use golang_base.Base.{ℕ, Bool, Option, List, Text, ℤ}
use golang_base.Domain.{
  Instant, User, Role, UserRole, RolePermission, UserPermission, PermissionChangesLog,
}
use golang_base.Domain.Errors.{Result}
use golang_base.Infra.Monad.{Act}

-- A condition of a WHERE clause that a listing builds from its filter.
pub data Condition : Type 0 where
  name_or_email_ilike : Text → Condition
  role_eq : Text → Condition
  is_active_eq : Bool → Condition
  target_type_eq target_role_eq target_user_id_eq : Text → Condition
  permission_eq changed_by_eq action_eq : Text → Condition
  created_at_ge created_at_le : Instant → Condition

-- A SELECT as the query builder holds it; `newest_first` is `ORDER BY created_at DESC`.
pub record Query : Type 0 where
  pub conditions : List Condition
  pub newest_first : Bool
  pub limit : Option ℕ
  pub offset : Option ℕ

abbrev pub Write : Type 0 → Type 0
Write S = Act S (Unit {0})

-- One field for each statement. A read has an error or a value; a write also has the state after
-- it, whether it failed or not.
pub record Database (S : Type 0) : Type 0 where
  pub select_user_by_id : Text → S → Result User
  pub select_user_by_email : Text → S → Result User
  pub select_user_roles : Text → S → Result (List Text)
  pub select_users : Query → S → Result (List User)
  pub count_users : Query → S → Result ℕ
  pub insert_user : User → Write S
  pub insert_user_roles : List UserRole → Write S
  pub update_user : User → Write S
  pub delete_user_roles : Text → Write S
  pub delete_user : Text → Write S
  pub select_roles : S → Result (List Role)
  pub insert_role_ignore : Role → Write S
  pub select_role_permissions : Text → S → Result (List RolePermission)
  pub select_all_role_permissions : S → Result (List RolePermission)
  pub upsert_role_permission : RolePermission → Write S
  pub delete_role_permission : Text → Text → Write S
  pub select_user_permissions : Text → S → Result (List UserPermission)
  pub upsert_user_permission : UserPermission → Write S
  pub delete_user_permission : Text → Text → Write S
  pub insert_log : PermissionChangesLog → Write S
  pub select_logs : Query → S → Result (List PermissionChangesLog)
  pub count_logs : Query → S → Result ℕ

-- GET (`none`: no such key, or an error), SET with a time to live in seconds, DEL.
pub record Redis (R : Type 0) : Type 0 where
  pub get : Text → R → Option Text
  pub set : Text → Text → ℕ → R → R
  pub del : Text → Write R

-- encoding/json on the two row types that are cached.
pub record Codec : Type 0 where
  pub marshal_roles : List RolePermission → Option Text
  pub unmarshal_roles : Text → Option (List RolePermission)
  pub marshal_users : List UserPermission → Option Text
  pub unmarshal_users : Text → Option (List UserPermission)

-- Everything that a request can change. No cache stands for `database.Redis == nil`.
pub record World (S R : Type 0) : Type 0 where
  pub store : S
  pub redis : Option R

abbrev pub Action : Type 0 → Type 0 → Type 0 → Type 0
Action S R A = Act (World S R) A

-- A call of the repository, which sees the database alone.
abbrev pub on_store : {S R A : Type 0} → Act S A → Action S R A
on_store m w = let (r, s') = m w.store in (r, record w { store = s' })
