-- ===== src/Auth/Handler/Permissions.antt =====
-- internal/modules/auth/handler.go: permissions, the overrides of a user, and the audit log.
use golang_base.Base.{
  Bool, true, false, ◌||◌, Option, none, some, List, [], ◌∷◌, ◌++◌, Text, codes, ◌==◌, ◌⊎◌, inl,
  inr, pos, if◌then◌else◌,
}
use golang_base.Domain.{Instant, PermissionQueryFilter}
use golang_base.Domain.Errors.{Result, ok, err}
use golang_base.Pkg.Pagination.{parse_pagination_params}
use golang_base.Pkg.Response.{ok_response, bad_request, internal_error, paginated_response}
use golang_base.Auth.Repository.Queries
use golang_base.Auth.Service.{get_user_permissions}
use golang_base.Auth.Service.Grants
use golang_base.Auth.Service.Grants.{PermissionChange}
use golang_base.Auth.Service.Matrix
use golang_base.Auth.Handler.{
  App, Handler, overrides_view, matrix_view, definitions_view, logs_view, note,
  UserPermissionRequest, AuditLogQuery, PageQuery, Extras, nonempty,
}

-- The layouts that an expiry may have, RFC 3339 first.
abbrev pub expiry_layouts : List Text
expiry_layouts =
    codes "2006-01-02T15:04:05Z07:00"
    ∷ codes "2006-01-02T15:04:05Z07:00"
    ∷ codes "2006-01-02T15:04:05"
    ∷ codes "2006-01-02"
    ∷ []

-- The first layout that the text parses under.
unfoldable pub first_parse : (Text → Text → Option Instant) → List Text → Text → Option Instant
first_parse parse_time [] s = none
first_parse parse_time (layout ∷ layouts) s = elim (parse_time layout s) [
  | some t ↦ some t
  | none ↦ first_parse parse_time layouts s
]

-- On the left the text of the error; an absent or empty expiry is none.
unfoldable pub parse_expires_at :
    (Text → Text → Option Instant) → Option Text → Text ⊎ Option Instant
parse_expires_at parse_time none = inr none
parse_expires_at parse_time (some []) = inr none
parse_expires_at parse_time (some (c ∷ cs)) =
    elim (first_parse parse_time expiry_layouts (c ∷ cs)) [
      | some t ↦ inr (some t)
      | none ↦ inl (codes "invalid expires_at format: " ++ (c ∷ cs))
    ]

-- The body's field if it is set, else the query's: whether the permission is granted, why, until
-- when.
unfoldable pub granted_of : Option Bool → Text → Bool
granted_of (some b) g = b
granted_of none g = if g == codes "false" || g == codes "0" then false else true

unfoldable pub text_or_query : Option Text → Text → Option Text
text_or_query none q = nonempty q
text_or_query (some []) q = nonempty q
text_or_query (some (c ∷ cs)) q = some (c ∷ cs)

-- An RFC 3339 date of the audit log's query; one that does not parse is dropped.
unfoldable pub date_or_none : (Text → Text → Option Instant) → Option Text → Option Instant
date_or_none parse_time none = none
date_or_none parse_time (some s) = parse_time (codes "2006-01-02T15:04:05Z07:00") s

module _ {S R : Type 0} (app : App S R) where
  -- The handlers GetPermissionMatrix and ListPermissions; the service returns no error.
  unfoldable pub show_permission_matrix : Handler S R
  show_permission_matrix w =
      (ok_response (matrix_view (Matrix.get_permission_matrix app.db app.registry w.store)), w)

  unfoldable pub show_permission_list : Handler S R
  show_permission_list w =
      (ok_response (definitions_view (Matrix.list_permissions app.db app.registry w.store)), w)

  -- The handler GetUserPermissions.
  unfoldable pub show_user_permissions : Instant → Text → Handler S R
  show_user_permissions now user_id w = elim (get_user_permissions app.db now user_id w.store) [
    | err e ↦ (internal_error (codes "internal server error"), w)
    | ok perms ↦ (ok_response (overrides_view perms), w)
  ]

  -- The handler GrantUserPermission after the expiry is parsed.
  unfoldable pub put_override :
      Instant
      → Result Text
      → Text
      → Text
      → Text
      → UserPermissionRequest
      → Extras
      → Option Instant
      → Handler S R
  put_override now uuid actor_id user_id permission req q expires_at w =
      let is_granted = granted_of req.granted q.granted in
      let (done, w') =
        Grants.grant_user_permission app.db app.redis now uuid
          (record {
            target_type = codes "user_permission";
            target_role = none;
            target_user_id = some user_id;
            permission = permission;
            is_granted = is_granted;
            expires_at = expires_at;
            actor_id = actor_id;
            reason = text_or_query req.reason q.reason;
            ip_address = some q.ip;
            user_agent = some q.user_agent;
          })
          w in
      elim done [
        | err e ↦ (internal_error (codes "internal server error"), w')
        | ok u ↦ (
          ok_response (
              note (if is_granted then codes "permission granted" else codes "permission revoked")),
          w',
        )
      ]

  -- A body that does not bind leaves the request empty.
  unfoldable pub put_user_permission :
      Instant → Result Text → Text → Text → Text → UserPermissionRequest → Extras → Handler S R
  put_user_permission now uuid actor_id user_id [] req q w =
      (bad_request (codes "permission is required"), w)
  put_user_permission now uuid actor_id user_id (c ∷ cs) req q w =
      elim (parse_expires_at app.parse_time (text_or_query req.expires_at q.expires_at)) [
        | inl message ↦ (bad_request message, w)
        | inr expires_at ↦ put_override now uuid actor_id user_id (c ∷ cs) req q expires_at w
      ]

  -- The handler RevokeUserPermission.
  unfoldable pub delete_user_permission :
      Instant → Result Text → Text → Text → Text → Extras → Handler S R
  delete_user_permission now uuid actor_id user_id [] q w =
      (bad_request (codes "permission is required"), w)
  delete_user_permission now uuid actor_id user_id (c ∷ cs) q w =
      let (done, w') =
        Grants.revoke_user_permission app.db app.redis now uuid
          (record {
            target_type = codes "user_permission";
            target_role = none;
            target_user_id = some user_id;
            permission = c ∷ cs;
            is_granted = false;
            expires_at = none;
            actor_id = actor_id;
            reason = nonempty q.reason;
            ip_address = some q.ip;
            user_agent = some q.user_agent;
          })
          w in
      elim done [
        | err e ↦ (internal_error (codes "internal server error"), w')
        | ok u ↦ (ok_response (note (codes "permission revoked")), w')
      ]

  unfoldable pub query_permission_changes : Option AuditLogQuery → PageQuery → Handler S R
  query_permission_changes none q w = (bad_request (codes "invalid query parameters"), w)
  query_permission_changes (some query) q w =
      let p = parse_pagination_params q.page q.limit in
      let filter : PermissionQueryFilter = record {
        target_type = query.target_type;
        target_role = query.target_role;
        target_user_id = query.target_user_id;
        permission = query.permission;
        changed_by = query.changed_by;
        action = query.action;
        from_date = date_or_none app.parse_time query.from_date;
        to_date = date_or_none app.parse_time query.to_date;
        limit = p.limit;
        offset = p.offset;
      } in
      elim (Queries.query_permission_changes app.db filter w.store) [
        | err e ↦ (internal_error (codes "internal server error"), w)
        | ok logs ↦ elim (Queries.count_permission_changes app.db filter w.store) [
          | err e ↦ (internal_error (codes "internal server error"), w)
          | ok total ↦
              (paginated_response app.ceil_quotient (logs_view logs) p.page p.limit (pos total), w)
        ]
      ]
