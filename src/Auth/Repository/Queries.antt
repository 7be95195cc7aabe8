-- ===== src/Auth/Repository/Queries.antt =====
-- internal/modules/auth/repository.go: the SELECTs that a filter builds, for the page and for the
-- count.
use golang_base.Base.{
  true, false, Option, none, some, List, [], ◌∷◌, ◌++◌, Text, ◌==◌, codes, ℕ, ℤ, is_positive, to_ℕ,
  if◌then◌else◌,
}
use golang_base.Domain.{User, PermissionChangesLog, PermissionQueryFilter}
use golang_base.Domain.Errors.{Result}
use golang_base.Infra.{Database, Query, Condition}
use golang_base.Auth.Dto.{UserFilter}

-- `if value != nil { query = query.Where(...) }`
abbrev pub where_set {ℓ} : {A : Type ℓ} → (A → Condition) → Option A → List Condition
where_set c none = []
where_set c (some a) = c a ∷ []

-- `if value != nil && *value != "" { query = query.Where(...) }`
abbrev pub where_nonempty : (Text → Condition) → Option Text → List Condition
where_nonempty c none = []
where_nonempty c (some t) = if t == [] then [] else c t ∷ []

-- `if n > 0 { query = query.Limit(n) }`, and so for Offset
abbrev pub if_positive : ℤ → Option ℕ
if_positive n = if is_positive n then some (to_ℕ n) else none

unfoldable pub user_conditions : UserFilter → List Condition
user_conditions filter =
    where_nonempty (λ s. Condition.name_or_email_ilike (codes "%" ++ (s ++ codes "%")))
      filter.search
    ++ (where_nonempty Condition.role_eq filter.role
        ++ where_set Condition.is_active_eq filter.is_active)

unfoldable pub log_conditions : PermissionQueryFilter → List Condition
log_conditions filter =
    where_set Condition.target_type_eq filter.target_type
    ++ (where_set Condition.target_role_eq filter.target_role
        ++ (where_set Condition.target_user_id_eq filter.target_user_id
            ++ (where_set Condition.permission_eq filter.permission
                ++ (where_set Condition.changed_by_eq filter.changed_by
                    ++ (where_set Condition.action_eq filter.action
                        ++ (where_set Condition.created_at_ge filter.from_date
                            ++ where_set Condition.created_at_le filter.to_date))))))

unfoldable pub list_users_query : UserFilter → Query
list_users_query filter = record {
  conditions = user_conditions filter;
  newest_first = true;
  limit = if_positive filter.limit;
  offset = if_positive filter.offset;
}

unfoldable pub count_users_query : UserFilter → Query
count_users_query filter = record {
  conditions = user_conditions filter;
  newest_first = false;
  limit = none;
  offset = none;
}

-- The audit log's SELECT has no ORDER BY.
unfoldable pub query_logs_query : PermissionQueryFilter → Query
query_logs_query filter = record {
  conditions = log_conditions filter;
  newest_first = false;
  limit = if_positive filter.limit;
  offset = if_positive filter.offset;
}

unfoldable pub count_logs_query : PermissionQueryFilter → Query
count_logs_query filter = record {
  conditions = log_conditions filter;
  newest_first = false;
  limit = none;
  offset = none;
}

module _ {S : Type 0} (db : Database S) where
  unfoldable pub list_users : UserFilter → S → Result (List User)
  list_users filter s = db.select_users (list_users_query filter) s

  unfoldable pub count_users : UserFilter → S → Result ℕ
  count_users filter s = db.count_users (count_users_query filter) s

  unfoldable pub query_permission_changes :
      PermissionQueryFilter → S → Result (List PermissionChangesLog)
  query_permission_changes filter s = db.select_logs (query_logs_query filter) s

  unfoldable pub count_permission_changes : PermissionQueryFilter → S → Result ℕ
  count_permission_changes filter s = db.count_logs (count_logs_query filter) s
