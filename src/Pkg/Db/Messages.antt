-- ===== src/Pkg/Db/Messages.antt =====
-- internal/pkg/db/db.go: which messages MapDBError gives, and that IsDBError knows them.
use golang_base.Base.{
  Bool, true, false, not, ◌&&◌, [], ◌∷◌, Text, codes, ◌==◌, eq_of_test, eq_refl, contains,
  has_prefix, ◌≡◌, refl, sym, arith, inl, inr, Bool-cases,
}
use golang_base.Domain.Errors.{PgError, message, pg}
use golang_base.Pkg.Db.{
  too_long_message, required_message, integrity_message, map_other, is_db_error,
  is_unique_violation, map_db_error,
}

-- The one message that is PostgreSQL's own: a value too long, without a column.
abbrev pub is_own_message : PgError → Bool
is_own_message e = e.code == codes "22001" && (e.column == [] && not (e.message == []))

integrity-is_db_error : (code : Text) → is_db_error (integrity_message code) ≡ true
unfolding is_db_error integrity_message ◌==◌
integrity-is_db_error code = elim (Bool-cases (code == codes "23503")) [
  | inl a ↦ rw (a, integrity_message) refl
  | inr b ↦ elim (Bool-cases (code == codes "23505")) [
    | inl c ↦ rw (b, integrity_message) (rw c refl)
    | inr d ↦ rw (b, integrity_message) (rw d refl)
  ]
]

too_long-is_db_error :
    (e : PgError)
    → (e.column == [] && not (e.message == [])) ≡ false
    → is_db_error (too_long_message e) ≡ true
unfolding is_db_error ◌==◌ has_prefix too_long_message
too_long-is_db_error e h = elim (Bool-cases (e.column == [])) [
  | inr column ↦ elim (Bool-cases (e.table == [])) [
    | inr table ↦ rw (column, too_long_message) (rw table refl)
    | inl no_table ↦ rw (column, too_long_message) (rw no_table refl)
  ]
  | inl no_column ↦ elim (Bool-cases (e.message == [])) [
    | inl no_message ↦ rw (no_column, too_long_message) (rw no_message refl)
    | inr own ↦ absurd (ground arith)
  ]
]

required-is_db_error : (e : PgError) → is_db_error (required_message e) ≡ true
unfolding is_db_error ◌==◌ has_prefix required_message
required-is_db_error e = elim (Bool-cases (e.column == [])) [
  | inr column ↦ elim (Bool-cases (e.table == [])) [
    | inr table ↦ rw (column, required_message) (rw table refl)
    | inl no_table ↦ rw (column, required_message) (rw no_table refl)
  ]
  | inl no_column ↦ rw (no_column, required_message) refl
]

-- The messages that map_other spells out.
known :
    (is_db_error (codes "invalid input syntax") ≡ true)
    × (is_db_error (codes "invalid date or time format") ≡ true)
    × (is_db_error (codes "constraint violation") ≡ true)
unfolding is_db_error ◌==◌ has_prefix
known = (refl, refl, refl)

map_other-is_db_error :
    (e : PgError) (msg : Text)
    → map_other e ≡ message msg
    → is_own_message e ≡ false
    → is_db_error msg ≡ true
unfolding map_other
map_other-is_db_error e msg h own =
    ground (arith, known.0, known.1, known.2, too_long-is_db_error e, required-is_db_error e)

integrity_message_rest :
    (code : Text)
    → contains code (codes "23502" ∷ codes "23514" ∷ []) ≡ true
    → integrity_message code ≡ codes "data integrity error"
unfolding integrity_message contains ◌==◌
integrity_message_rest code h = elim (Bool-cases (codes "23502" == code)) [
  | inl a ↦ rw (sym (eq_of_test (codes "23502") code a)) refl
  | inr b ↦ rw (sym (eq_of_test (codes "23514") code (ground arith))) refl
]

integrity_message_unique :
    (code : Text)
    → (code == codes "23505") ≡ true
    → integrity_message code ≡ codes "duplicate value already exists"
unfolding integrity_message ◌==◌
integrity_message_unique code h = rw (eq_of_test code (codes "23505") h) refl

module _ (integrity_violation : PgError → Bool) where
  -- Whatever IntegrityViolation answers: a message that MapDBError makes of a PostgreSQL error is
  -- one that IsDBError knows, unless it is PostgreSQL's own message of a value too long.
  pub map_db_error-is_db_error :
      (e : PgError) (msg : Text)
      → map_db_error integrity_violation (pg e) ≡ message msg
      → is_own_message e ≡ false
      → is_db_error msg ≡ true
  unfolding map_db_error
  map_db_error-is_db_error e msg h own = elim (Bool-cases (integrity_violation e)) [
    | inl violation ↦ ground (arith, integrity-is_db_error e.code)
    | inr other ↦ map_other-is_db_error e msg (ground arith) own
  ]

  -- If IntegrityViolation holds of the codes of class 23 that the code names: a missing value and a
  -- failed check are both reported as "data integrity error", and the errors that IsUniqueViolation
  -- accepts as "duplicate value already exists".
  pub map_db_error-integrity :
      ((e : PgError)
        → contains e.code (codes "23502" ∷ codes "23503" ∷ codes "23505" ∷ codes "23514" ∷ [])
          ≡ true
        → integrity_violation e ≡ true)
      → (e : PgError)
      → (contains e.code (codes "23502" ∷ codes "23514" ∷ []) ≡ true
          → map_db_error integrity_violation (pg e) ≡ message (codes "data integrity error"))
        × (is_unique_violation (pg e) ≡ true
            → map_db_error integrity_violation (pg e)
              ≡ message (codes "duplicate value already exists"))
  unfolding map_db_error is_unique_violation contains
  map_db_error-integrity law e = (
    λ (h : contains e.code (codes "23502" ∷ codes "23514" ∷ []) ≡ true).
        ground (arith, law e, integrity_message_rest e.code h),
    λ (h : is_unique_violation (pg e) ≡ true).
        let listed : (codes "23505" == e.code) ≡ true =
          rw (eq_of_test e.code (codes "23505") h) (eq_refl (codes "23505")) in
        ground (arith, law e, integrity_message_unique e.code h),
  )
