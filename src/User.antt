-- ===== src/User.antt =====
-- internal/modules/user: the repository (repository.go), the service (service.go), its answers
-- (dto.go) and handlers (handler.go), over the statements that the auth module's repository also
-- sends.
use golang_base.Base.{
  ℕ, true, false, none, some, List, [], ◌∷◌, Text, codes, map, ℤ, pos, to_ℕ, length,
}
use golang_base.Domain.{Instant, zero_time, User, UserRole}
use golang_base.Domain.Errors.{message, Result, ok, err}
use golang_base.Infra.{Database}
use golang_base.Infra.Monad.{Act, ◌>>◌, ignore, skip}
use golang_base.Pkg.Pagination.{parse_pagination_params}
use golang_base.Pkg.Response.{
  Response, ok_response, bad_request, not_found, internal_error, paginated_response,
}
use golang_base.Auth.Repository.{roles_or_nil}

pub record UserResponse : Type 0 where
  pub id : Text
  pub email : Text
  pub name : Text
  pub roles : List Text
  pub created_at : Text

unfoldable pub to_response : (Instant → Text) → User → UserResponse
to_response format user = record {
  id = user.id;
  email = user.email;
  name = user.name;
  roles = user.roles;
  created_at = format user.created_at;
}

-- The rows of user_roles, without who assigned them.
unfoldable pub rows_of : Text → List Text → List UserRole
rows_of id [] = []
rows_of id (role ∷ roles) =
    record { user_id = id; role = role; assigned_by = none; created_at = zero_time }
    ∷ rows_of id roles

module _ {S : Type 0} (db : Database S) where
  unfoldable pub get_by_id : Text → S → Result User
  get_by_id id s = elim (db.select_user_by_id id s) [
    | err e ↦ err e
    | ok user ↦ ok (record user { roles = roles_or_nil (db.select_user_roles user.id s) })
  ]

  unfoldable pub get_by_email : Text → S → Result User
  get_by_email email s = elim (db.select_user_by_email email s) [
    | err e ↦ err e
    | ok user ↦ ok (record user { roles = roles_or_nil (db.select_user_roles user.id s) })
  ]

  unfoldable pub insert_roles : User → Act S (Unit {0})
  insert_roles user = elim user.roles [
    | [] ↦ skip
    | role ∷ roles ↦ db.insert_user_roles (rows_of user.id (role ∷ roles))
  ]

  unfoldable pub create : User → Act S (Unit {0})
  create user = do db.insert_user user; insert_roles user

  -- The page, newest first, and its rows without their roles; the query builder gets the numbers
  -- as they are, and leaves out a negative offset, which stands here as 0.
  unfoldable pub list_page : ℤ → ℤ → S → Result (List User)
  list_page limit offset s =
      db.select_users
        (record {
          conditions = [];
          newest_first = true;
          limit = some (to_ℕ limit);
          offset = some (to_ℕ offset);
        })
        s

  -- The error of the DELETE is dropped.
  unfoldable pub update : User → Act S (Unit {0})
  update user = do db.update_user user; ignore (db.delete_user_roles user.id); insert_roles user

  unfoldable pub delete : Text → Act S (Unit {0})
  delete id = db.delete_user id

  unfoldable pub count : S → Result ℕ
  count s =
      db.count_users (record { conditions = []; newest_first = false; limit = none; offset = none })
        s

  unfoldable pub get_profile : Text → S → Result User
  get_profile id s = elim (get_by_id id s) [
    | err e ↦ err (message (codes "user not found"))
    | ok user ↦ ok user
  ]

  -- If the count fails, the page's length stands for it.
  unfoldable pub list_with_total : ℤ → ℤ → S → Result (List User × ℕ)
  list_with_total limit offset s = elim (list_page limit offset s) [
    | err e ↦ err e
    | ok users ↦ elim (count s) [ err e ↦ ok (users, length users) | ok total ↦ ok (users, total) ]
  ]

  module _ (ceil_quotient : ℕ → ℕ → ℕ) (format : Instant → Text) where
    unfoldable pub show_users : Text → Text → S → Response (List UserResponse)
    show_users page_query limit_query s =
        let p = parse_pagination_params page_query limit_query in
        elim (list_with_total p.limit p.offset s) [
          | err e ↦ internal_error (codes "internal server error")
          | ok (users, total) ↦
              paginated_response ceil_quotient (map (to_response format) users) p.page p.limit
                (pos total)
        ]

    -- The service's only error has this text.
    unfoldable pub show_profile : Text → S → Response UserResponse
    show_profile [] s = bad_request (codes "id is required")
    show_profile (c ∷ cs) s = elim (get_profile (c ∷ cs) s) [
      | err e ↦ not_found (codes "user not found")
      | ok user ↦ ok_response (to_response format user)
    ]
