-- ===== src/Pkg/Db.antt =====
-- internal/pkg/db/db.go: the messages for errors of PostgreSQL. IntegrityViolation is a method of
-- the driver, a test on the error, and so a parameter here.
pub mod Messages
use golang_base.Base.{
  Bool, false, not, ◌&&◌, ◌||◌, [], ◌++◌, Text, codes, ◌==◌, has_prefix, if◌then◌else◌,
}
use golang_base.Domain.Errors.{PgError, Error, message, pg}

-- A value too long, SQLSTATE 22001.
unfoldable pub too_long_message : PgError → Text
too_long_message e =
    if not (e.column == []) && not (e.table == [])
    then codes "value too long for " ++ e.table ++ codes "." ++ e.column
    else if not (e.column == [])
    then codes "value too long for column: " ++ e.column
    else if not (e.message == [])
    then e.message
    else codes "value too long for column"

-- A missing value, SQLSTATE 23502.
unfoldable pub required_message : PgError → Text
required_message e =
    if not (e.column == []) && not (e.table == [])
    then codes "required field cannot be empty: " ++ e.table ++ codes "." ++ e.column
    else if not (e.column == [])
    then codes "required field cannot be empty: " ++ e.column
    else codes "required field cannot be empty"

-- The inner switch, for the errors that are integrity violations.
unfoldable pub integrity_message : Text → Text
integrity_message code =
    if code == codes "23503"
    then codes "referenced resource not found"
    else if code == codes "23505"
    then codes "duplicate value already exists"
    else codes "data integrity error"

-- The outer switch: no case leaves the error as it is.
unfoldable pub map_other : PgError → Error
map_other e =
    if e.code == codes "22P02"
    then message (codes "invalid input syntax")
    else if e.code == codes "22001"
    then message (too_long_message e)
    else if e.code == codes "22007"
    then message (codes "invalid date or time format")
    else if e.code == codes "23502"
    then message (required_message e)
    else if e.code == codes "23514"
    then message (codes "constraint violation")
    else pg e

-- The test of IsDBError, on the error's text.
unfoldable pub is_db_error : Text → Bool
is_db_error msg =
    msg == codes "duplicate value already exists"
    || msg == codes "data integrity error"
    || msg == codes "referenced resource not found"
    || msg == codes "invalid date or time format"
    || msg == codes "invalid input syntax"
    || msg == codes "constraint violation"
    || has_prefix msg (codes "value too long")
    || has_prefix msg (codes "required field cannot be empty")

unfoldable pub is_unique_violation : Error → Bool
is_unique_violation (pg e) = e.code == codes "23505"
is_unique_violation _ = false

module _ (integrity_violation : PgError → Bool) where
  unfoldable pub map_db_error : Error → Error
  map_db_error (pg e) =
      if integrity_violation e then message (integrity_message e.code) else map_other e
  map_db_error e = e
