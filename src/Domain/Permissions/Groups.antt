-- ===== src/Domain/Permissions/Groups.antt =====
-- internal/domain/permissions.go: the groups are the registered permissions, by category.
use golang_base.Base.{
  true, ◌&&◌, List, [], ◌∷◌, Text, ◌==◌, eq_of_test, eq_refl, contains, lookup, has_key, keys,
  contains-keys, lookup-insert, sort_strings, contains-sort_strings, sort_strings-IsSorted,
  IsSorted, map, ◌≡◌, refl, ◌∙◌, arith,
}
use golang_base.Domain.Permissions.{
  Registry, PermissionGroup, get_permissions, get_permission_category, category_set, in_category,
  groups_of, permission_groups,
}

lookup-get_permissions : (p : Text) (r : Registry) → lookup p (get_permissions r) ≡ lookup p r
unfolding get_permissions lookup
lookup-get_permissions p [] = refl
lookup-get_permissions p ((k, v) ∷ r) = ground (arith, lookup-get_permissions p r)

contains-in_category :
    (p cat : Text) (perms : List Text)
    → contains p (in_category cat perms) ≡ (contains p perms && get_permission_category p == cat)
unfolding in_category contains
contains-in_category p cat [] = refl
contains-in_category p cat (q ∷ perms) =
    ground (arith, contains-in_category p cat perms, eq_of_test q p)

abbrev pub AllGroups : (PermissionGroup → Type 0) → List PermissionGroup → Type 0
AllGroups P [] = Unit
AllGroups P (g ∷ gs) = P g × AllGroups P gs

-- The group lists in order the registered permissions of the category that is its name.
abbrev pub IsGroupOf : Registry → PermissionGroup → Type 0
IsGroupOf r g =
    IsSorted g.permissions
    × ((p : Text) → contains p g.permissions ≡ (has_key p r && get_permission_category p == g.name))

contains-registered :
    (p : Text) (r : Registry) → contains p (keys (get_permissions r)) ≡ has_key p r
contains-registered p r =
    ground (arith, contains-keys p (get_permissions r), lookup-get_permissions p r)

groups_of-IsGroupOf :
    (r : Registry) (cats : List Text)
    → AllGroups (IsGroupOf r) (groups_of (keys (get_permissions r)) cats)
unfolding groups_of
groups_of-IsGroupOf r [] = tt
groups_of-IsGroupOf r (cat ∷ cats) =
    let perms = keys (get_permissions r) in
    (
      (
        sort_strings-IsSorted (in_category cat perms),
        λ p. ground (
          arith,
          contains-sort_strings p (in_category cat perms),
          contains-in_category p cat perms,
          contains-registered p r,
        ),
      ),
      groups_of-IsGroupOf r cats,
    )

names-groups_of : (perms cats : List Text) → map (λ g. g.name) (groups_of perms cats) ≡ cats
unfolding groups_of
names-groups_of perms [] = refl
names-groups_of perms (cat ∷ cats) = ground (arith, names-groups_of perms cats)

has_key-category_set :
    (p : Text) (perms : List Text)
    → contains p perms ≡ true
    → has_key (get_permission_category p) (category_set perms) ≡ true
unfolding category_set contains
has_key-category_set p [] h = cc
has_key-category_set p (q ∷ perms) h = ground (
  arith,
  eq_of_test q p,
  eq_refl (get_permission_category p),
  has_key-category_set p perms,
  lookup-insert (get_permission_category q) (get_permission_category p) true (category_set perms),
)

-- PermissionGroups: the names of the groups are sorted, every registered permission has the group
-- of its category, and each group lists, in order, exactly the registered permissions of its
-- category.
pub permission_groups-IsGroupOf :
    (r : Registry)
    → IsSorted (map (λ g. g.name) (permission_groups r))
      × ((p : Text)
          → has_key p r ≡ true
          → contains (get_permission_category p) (map (λ g. g.name) (permission_groups r)) ≡ true)
      × AllGroups (IsGroupOf r) (permission_groups r)
unfolding permission_groups
permission_groups-IsGroupOf r =
    let perms = keys (get_permissions r) in
    let cats = sort_strings (keys (category_set perms)) in
    (
      rw names-groups_of (sort_strings-IsSorted (keys (category_set perms))),
      λ p (h : has_key p r ≡ true). rw names-groups_of (
          contains-sort_strings (get_permission_category p) (keys (category_set perms))
          ∙ contains-keys (get_permission_category p) (category_set perms)
          ∙ has_key-category_set p perms (contains-registered p r ∙ h)),
      groups_of-IsGroupOf r cats,
    )
