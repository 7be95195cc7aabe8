-- ===== src/Auth/Service/Access.antt =====
-- HasPermission and GetComputedPermissions (internal/modules/auth/service.go) against Spec, and
-- against each other.
pub mod Sets
use golang_base.Base.{
  Bool, true, false, not, ◌&&◌, ◌||◌, Option, none, some, List, [], ◌∷◌, Text, ◌==◌, eq_iff,
  contains, any_of_contains, contains_of_any, contains-sort_strings, any, Dict, lookup, has_key,
  keys, contains-keys, sort_strings, sort_strings-IsSorted, IsSorted, IsDict, ◌≡◌, refl, sym, ◌∙◌,
  ◌↔◌, ◌⊎◌, inl, inr, ◌≢◌, arith, if◌then◌else◌, Bool-cases, Option-cases,
}
use golang_base.Domain.{Instant, role_super_admin, User, RolePermission, UserPermission}
use golang_base.Domain.Errors.{Result, ok, err, Result-cases}
use golang_base.Infra.{Database}
use golang_base.Auth.Repository
use golang_base.Auth.Service.{
  get_role_permissions, get_user_permissions, add_all, collect_roles, computed_set,
  collect_overrides, apply_overrides, get_computed_permissions, some_role_has, has_permission,
  unexpired_permissions,
}
use golang_base.Auth.Service.Spec.{
  gives, override_of, override_now, role_gives, Permitted, superuser, by_override, by_role,
}
use Sets.{
  contains-unexpired_permissions, lookup-collect_overrides, collect_overrides-IsDict,
  has_key-add_all, add_all-IsDict, has_key-apply_overrides, apply_overrides-IsDict,
}

module _ {S : Type 0} (db : Database S) where
  -- A role's permissions, as HasPermission tests them.
  contains-get_role_permissions :
      (now : Instant) (p role : Text) (s : S)
      → role_gives db now p role s ≡ (elim (get_role_permissions db now role s) [
        | err e ↦ false
        | ok perms ↦ contains p perms
      ])
  unfolding get_role_permissions Repository.get_role_permissions
  contains-get_role_permissions now p role s =
      elim (Result-cases (db.select_role_permissions role s)) [
        | inl (rows, e) ↦ ground (arith, contains-unexpired_permissions now p rows)
        | inr (e, h) ↦ ground arith
      ]

  pub some_role_has-any :
      (now : Instant) (p : Text) (roles : List Text) (s : S)
      → some_role_has db now p roles s ≡ any (λ role. role_gives db now p role s) roles
  unfolding some_role_has
  some_role_has-any now p [] s = refl
  some_role_has-any now p (role ∷ roles) s =
      ground (arith, contains-get_role_permissions now p role s, some_role_has-any now p roles s)

  has_key-collect_roles :
      (now : Instant) (p : Text) (roles : List Text) (set : Dict Bool) (s : S)
      → has_key p (collect_roles db now roles set s)
        ≡ (has_key p set || some_role_has db now p roles s)
  unfolding collect_roles some_role_has
  has_key-collect_roles now p [] set s = ground arith
  has_key-collect_roles now p (role ∷ roles) set s =
      elim (Result-cases (get_role_permissions db now role s)) [
        | inl (perms, e) ↦
            rw (e, collect_roles)
              (ground (
                arith,
                has_key-collect_roles now p roles (add_all perms set) s,
                has_key-add_all p perms set,
              ))
        | inr (e, h) ↦
            rw (h, collect_roles, some_role_has) (has_key-collect_roles now p roles set s)
      ]

  collect_roles-IsDict :
      (now : Instant) (roles : List Text) (set : Dict Bool) (s : S)
      → IsDict set
      → IsDict (collect_roles db now roles set s)
  unfolding collect_roles
  collect_roles-IsDict now [] set s h = h
  collect_roles-IsDict now (role ∷ roles) set s h =
      elim (Result-cases (get_role_permissions db now role s)) [
        | inl (perms, e) ↦
            rw (e, collect_roles)
              (collect_roles-IsDict now roles (add_all perms set) s (add_all-IsDict perms set h))
        | inr (e, failed) ↦ rw (failed, collect_roles) (collect_roles-IsDict now roles set s h)
      ]

  -- The override of the service's map is that of the rows.
  lookup-get_user_permissions :
      (now : Instant) (user_id p : Text) (s : S)
      → override_now db now user_id p s
        ≡ (elim (get_user_permissions db now user_id s) [ err e ↦ none | ok m ↦ lookup p m ])
  unfolding get_user_permissions Repository.get_user_permissions lookup
  lookup-get_user_permissions now user_id p s =
      elim (Result-cases (db.select_user_permissions user_id s)) [
        | inl (rows, e) ↦ ground (arith, lookup-collect_overrides now p rows [])
        | inr (e, h) ↦ ground arith
      ]

  get_user_permissions-IsDict :
      (now : Instant) (user_id : Text) (s : S) (m : Dict Bool)
      → get_user_permissions db now user_id s ≡ ok m
      → IsDict m
  unfolding get_user_permissions Repository.get_user_permissions
  get_user_permissions-IsDict now user_id s m h =
      elim (Result-cases (db.select_user_permissions user_id s)) [
        | inl (rows, e) ↦
            let same : collect_overrides now rows [] ≡ m = ground arith in
            rw (← same) (collect_overrides-IsDict now rows [] tt)
        | inr (e, failed) ↦ ground arith
      ]

  -- Rows decide: an override, or else some role.
  rows_permit : Instant → Text → List Text → Text → S → Bool
  rows_permit now user_id roles p s = elim (override_now db now user_id p s) [
    | some granted ↦ granted
    | none ↦ any (λ role. role_gives db now p role s) roles
  ]

  has_permission-rows :
      (now : Instant) (user_id p : Text) (s : S) (user : User)
      → Repository.get_user_by_id db user_id s ≡ ok user
      → has_permission db now user_id p s
        ≡ (contains role_super_admin user.roles || rows_permit now user_id user.roles p s)
  unfolding has_permission rows_permit
  has_permission-rows now user_id p s user h =
      (ground
        (arith, lookup-get_user_permissions now user_id p s, some_role_has-any now p user.roles s))

  has_key-computed_set :
      (now : Instant) (user_id p : Text) (roles : List Text) (s : S)
      → has_key p (computed_set db now user_id roles s) ≡ rows_permit now user_id roles p s
  unfolding computed_set rows_permit lookup
  has_key-computed_set now user_id p roles s =
      let set = collect_roles db now roles [] s in
      elim (Result-cases (get_user_permissions db now user_id s)) [
        | inl (m, e) ↦ ground (
          arith,
          has_key-apply_overrides p m set (get_user_permissions-IsDict now user_id s m e),
          has_key-collect_roles now p roles [] s,
          lookup-get_user_permissions now user_id p s,
          some_role_has-any now p roles s,
        )
        | inr (e, failed) ↦ ground (
          arith,
          has_key-collect_roles now p roles [] s,
          lookup-get_user_permissions now user_id p s,
          some_role_has-any now p roles s,
        )
      ]

  rows_permit_sound :
      (now : Instant) (user_id p : Text) (roles : List Text) (s : S)
      → rows_permit now user_id roles p s ≡ true
      → Permitted db now user_id roles p s
  unfolding rows_permit
  rows_permit_sound now user_id p roles s h =
      elim (Option-cases (override_now db now user_id p s)) [
        | inl free ↦
            let (role, listed, e) =
              contains_of_any (λ role. role_gives db now p role s) roles (ground arith) in
            by_role free role listed e
        | inr (granted, e) ↦ by_override (ground arith)
      ]

  rows_permit_complete :
      (now : Instant) (user_id p : Text) (roles : List Text) (s : S)
      → Permitted db now user_id roles p s
      → (contains role_super_admin roles || rows_permit now user_id roles p s) ≡ true
  unfolding rows_permit
  rows_permit_complete now user_id p roles s (superuser h) = ground arith
  rows_permit_complete now user_id p roles s (by_override h) = ground arith
  rows_permit_complete now user_id p roles s (by_role free role listed e) =
      ground (arith, any_of_contains (λ role. role_gives db now p role s) role roles listed e)

  -- For a user that the repository finds, HasPermission answers true exactly when the rows permit
  -- it: a super admin always, else the last unexpired override of the user for this permission says
  -- so, or there is none and an unexpired row of one of the user's roles gives it.
  pub has_permission-Permitted :
      (now : Instant) (user_id p : Text) (s : S) (user : User)
      → Repository.get_user_by_id db user_id s ≡ ok user
      → (has_permission db now user_id p s ≡ true) ↔ Permitted db now user_id user.roles p s
  has_permission-Permitted now user_id p s user found = (
    λ h. elim (Bool-cases (contains role_super_admin user.roles)) [
      | inl super ↦ superuser super
      | inr plain ↦
          rows_permit_sound now user_id p user.roles s
            (ground (arith, has_permission-rows now user_id p s user found))
    ],
    λ h.
        has_permission-rows now user_id p s user found
        ∙ rows_permit_complete now user_id p user.roles s h,
  )

  -- For a known user who is no super admin GetComputedPermissions returns a sorted list with
  -- exactly the permissions that HasPermission grants, whatever reads of rows fail.
  pub computed-has_permission :
      (now : Instant) (user_id : Text) (s : S) (user : User)
      → Repository.get_user_by_id db user_id s ≡ ok user
      → contains role_super_admin user.roles ≡ false
      → (perms : List Text) × (get_computed_permissions db now user_id user.roles s ≡ ok perms)
        × IsSorted perms
        × ((p : Text) → contains p perms ≡ has_permission db now user_id p s)
  unfolding get_computed_permissions
  computed-has_permission now user_id s user found plain =
      let set = computed_set db now user_id user.roles s in
      (
        sort_strings (keys set),
        rw (plain, get_computed_permissions),
        sort_strings-IsSorted (keys set),
        λ p.
            contains-sort_strings p (keys set)
            ∙ contains-keys p set
            ∙ has_key-computed_set now user_id p user.roles s
            ∙ sym (has_permission-rows now user_id p s user found ∙ rw plain),
      )
