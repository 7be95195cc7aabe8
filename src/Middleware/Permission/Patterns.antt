-- ===== src/Middleware/Permission/Patterns.antt =====
-- What a pattern of AllowedPermissions means (internal/middleware/permission.go).
use golang_base.Base.{
  true, some, List, [], ◌∷◌, ◌++◌, Text, codes, ◌==◌, eq_iff, eq_of_test, eq_refl, contains,
  cut_suffix, cut_suffix_sound, cut_suffix_append, has_prefix, has_prefix_append, has_prefix_split,
  ◌≡◌, ◌↔◌, inl, inr, arith, Bool-cases, Option-cases,
}
use golang_base.Middleware.Permission.{matches_pattern, match_permission}

-- The permission itself, or anything below a prefix.
pub data Matches (p q : Text) : Type 0 where
  exact : p ≡ q → Matches p q
  wildcard :
      (prefix rest : Text)
      → q ≡ prefix ++ codes ".*"
      → p ≡ (prefix ++ codes ".") ++ rest
      → Matches p q

matches_pattern_sound : (p q : Text) → matches_pattern p q ≡ true → Matches p q
unfolding matches_pattern
matches_pattern_sound p q h = elim (Bool-cases (p == q)) [
  | inl same ↦ exact (eq_of_test p q same)
  | inr other ↦ elim (Option-cases (cut_suffix q (codes ".*"))) [
    | inl plain ↦ absurd (ground arith)
    | inr (prefix, cut) ↦
        let (rest, e) = has_prefix_split p (prefix ++ codes ".") (ground arith) in
        wildcard prefix rest (cut_suffix_sound q (codes ".*") prefix cut) e
  ]
]

matches_pattern_complete : (p q : Text) → Matches p q → matches_pattern p q ≡ true
unfolding matches_pattern
matches_pattern_complete p q (exact e) = ground (arith, eq_iff p q)
matches_pattern_complete p q (wildcard prefix rest eq ep) =
    let cut : cut_suffix q (codes ".*") ≡ some prefix =
      rw eq (cut_suffix_append prefix (codes ".*")) in
    let starts : has_prefix p (prefix ++ codes ".") ≡ true =
      rw ep (has_prefix_append (prefix ++ codes ".") rest) in
    ground arith

match_permission_sound :
    (p : Text) (patterns : List Text)
    → match_permission p patterns ≡ true
    → (q : Text) × (contains q patterns ≡ true) × Matches p q
unfolding match_permission contains
match_permission_sound p [] h = cc
match_permission_sound p (q ∷ qs) h = elim (Bool-cases (matches_pattern p q)) [
  | inl here ↦ (q, ground (arith, eq_refl q), matches_pattern_sound p q here)
  | inr there ↦
      let (r, listed, m) = match_permission_sound p qs (ground arith) in (r, ground arith, m)
]

match_permission_complete :
    (p q : Text) (patterns : List Text)
    → contains q patterns ≡ true
    → Matches p q
    → match_permission p patterns ≡ true
unfolding match_permission contains
match_permission_complete p q [] h m = cc
match_permission_complete p q (r ∷ rs) h m = ground (
  arith,
  matches_pattern_complete p q m,
  eq_iff r q,
  λ (l : contains q rs ≡ true). match_permission_complete p q rs l m,
)

-- A permission passes exactly when one of the patterns is the permission itself, or is a prefix
-- followed by ".*" and the permission goes on after that prefix and a dot.
pub match_permission_iff :
    (p : Text) (patterns : List Text)
    → (match_permission p patterns ≡ true)
      ↔ ((q : Text) × (contains q patterns ≡ true) × Matches p q)
match_permission_iff p patterns =
    (match_permission_sound p patterns, λ h. match_permission_complete p h.0 patterns h.1 h.2)
