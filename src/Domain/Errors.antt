-- ===== src/Domain/Errors.antt =====
-- internal/domain/errors.go, and the results of functions that return `(T, error)`.
use golang_base.Base.{ℕ, Bool, true, false, Text, ◌≡◌, refl, ◌⊎◌, inl, inr}

-- The fields of a PostgreSQL error that the program reads.
pub record PgError : Type 0 where
  pub code : Text
  pub column : Text
  pub table : Text
  pub message : Text

-- The program's error values; those that it makes from a text; the driver's; and those of other
-- packages, which it passes on or drops.
pub data Error : Type 0 where
  not_found already_exists invalid_input unauthorized invalid_credentials : Error
  user_exists user_not_found role_not_found : Error
  message : Text → Error
  pg : PgError → Error
  external : ℕ → Error

pub data Result {ℓ} (A : Type ℓ) : Type ℓ where
  ok : A → Result A
  err : Error → Result A

pub Result-cases {ℓ} :
    {A : Type ℓ} (r : Result A) → ((a : A) × (r ≡ ok a)) ⊎ ((e : Error) × (r ≡ err e))
Result-cases (ok a) = inl (a, refl)
Result-cases (err e) = inr (e, refl)

-- `err == ErrUserExists`, `err == ErrUserNotFound`, `err == ErrInvalidCredentials`.
abbrev pub is_user_exists : Error → Bool
is_user_exists user_exists = true
is_user_exists _ = false

abbrev pub is_user_not_found : Error → Bool
is_user_not_found user_not_found = true
is_user_not_found _ = false

abbrev pub is_invalid_credentials : Error → Bool
is_invalid_credentials invalid_credentials = true
is_invalid_credentials _ = false
