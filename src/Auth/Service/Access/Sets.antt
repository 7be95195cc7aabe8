-- ===== src/Auth/Service/Access/Sets.antt =====
-- The service's loops over rows and its map operations, by what they hold afterwards.
use golang_base.Base.{
  Bool, true, false, ◌||◌, none, some, List, [], ◌∷◌, Text, eq_iff, contains, any, Dict, lookup,
  insert, erase, has_key, lookup-insert, lookup-erase, insert-IsDict, erase-IsDict, IsDict, ◌≡◌,
  refl, arith,
}
use golang_base.Domain.{Instant, RolePermission, UserPermission}
use golang_base.Auth.Service.{unexpired_permissions, collect_overrides, add_all, apply_overrides}
use golang_base.Auth.Service.Spec.{gives, override_of}

pub contains-unexpired_permissions :
    (now : Instant) (p : Text) (rows : List RolePermission)
    → contains p (unexpired_permissions now rows) ≡ any (gives now p) rows
unfolding contains unexpired_permissions
contains-unexpired_permissions now p [] = refl
contains-unexpired_permissions now p (row ∷ rows) =
    ground (arith, contains-unexpired_permissions now p rows)

pub lookup-collect_overrides :
    (now : Instant) (p : Text) (rows : List UserPermission) (m : Dict Bool)
    → lookup p (collect_overrides now rows m)
      ≡ (elim (override_of now p rows) [ none ↦ lookup p m | some b ↦ some b ])
unfolding collect_overrides
lookup-collect_overrides now p [] m = refl
lookup-collect_overrides now p (row ∷ rows) m = ground (
  arith,
  lookup-collect_overrides now p rows m,
  lookup-collect_overrides now p rows (insert row.permission row.is_granted m),
  lookup-insert row.permission p row.is_granted m,
)

pub collect_overrides-IsDict :
    (now : Instant) (rows : List UserPermission) (m : Dict Bool)
    → IsDict m
    → IsDict (collect_overrides now rows m)
unfolding collect_overrides
collect_overrides-IsDict now [] m h = h
collect_overrides-IsDict now (row ∷ rows) m h = ground (
  arith,
  collect_overrides-IsDict now rows m h,
  insert-IsDict row.permission row.is_granted m h,
  collect_overrides-IsDict now rows (insert row.permission row.is_granted m),
)

pub has_key-add_all :
    (p : Text) (perms : List Text) (set : Dict Bool)
    → has_key p (add_all perms set) ≡ (has_key p set || contains p perms)
unfolding add_all contains
has_key-add_all p [] set = ground arith
has_key-add_all p (q ∷ perms) set =
    ground (arith, has_key-add_all p perms (insert q true set), lookup-insert q p true set)

pub add_all-IsDict : (perms : List Text) (set : Dict Bool) → IsDict set → IsDict (add_all perms set)
unfolding add_all
add_all-IsDict [] set h = h
add_all-IsDict (q ∷ perms) set h =
    add_all-IsDict perms (insert q true set) (insert-IsDict q true set h)

-- An override decides; without one the set is as before. The order of iteration plays no part.
pub has_key-apply_overrides :
    (p : Text) (overrides set : Dict Bool)
    → IsDict overrides
    → has_key p (apply_overrides overrides set)
      ≡ (elim (lookup p overrides) [ none ↦ has_key p set | some granted ↦ granted ])
unfolding apply_overrides lookup
has_key-apply_overrides p [] set h = refl
has_key-apply_overrides p ((q, true) ∷ rest) set h = ground (
  arith,
  has_key-apply_overrides p rest (insert q true set) h.1,
  lookup-insert q p true set,
  eq_iff q p,
)
has_key-apply_overrides p ((q, false) ∷ rest) set h =
    ground
      (arith, has_key-apply_overrides p rest (erase q set) h.1, lookup-erase q p set, eq_iff q p)

pub apply_overrides-IsDict :
    (overrides set : Dict Bool) → IsDict set → IsDict (apply_overrides overrides set)
unfolding apply_overrides
apply_overrides-IsDict [] set h = h
apply_overrides-IsDict ((q, true) ∷ rest) set h =
    apply_overrides-IsDict rest (insert q true set) (insert-IsDict q true set h)
apply_overrides-IsDict ((q, false) ∷ rest) set h =
    apply_overrides-IsDict rest (erase q set) (erase-IsDict q set h)
