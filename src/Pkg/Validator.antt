-- ===== src/Pkg/Validator.antt =====
-- internal/pkg/validator/validator.go: the messages for the fields that the validator package finds
-- wrong. A field's name is that of a Go field, and so ASCII.
use golang_base.Base.{
  ℕ, ◌+◌, Bool, ◌&&◌, Option, none, some, List, [], ◌∷◌, ◌++◌, Text, codes, ◌==◌, Dict, lookup, leb,
  has_prefix, drop_bytes, if◌then◌else◌,
}
use golang_base.Pkg.Response.{ErrorDetail}

-- What is read of a validator.FieldError.
pub record FieldError : Type 0 where
  pub field : Text
  pub tag : Text
  pub param : Text

-- The map `messages`.
unfoldable pub messages : Dict Text
messages =
    (codes "required", codes "is required")
    ∷ (codes "email", codes "must be a valid email address")
    ∷ (codes "min", codes "must be at least %s characters")
    ∷ (codes "max", codes "must be at most %s characters")
    ∷ (codes "oneof", codes "must be one of: %s")
    ∷ (codes "gte", codes "must be greater than or equal to %s")
    ∷ (codes "lte", codes "must be less than or equal to %s")
    ∷ (codes "url", codes "must be a valid URL")
    ∷ (codes "len", codes "must be exactly %s characters")
    ∷ []

-- `fmt.Sprintf(msg, param)` where `msg` has one verb, which is %s, if it has any; `none` if there
-- is no verb.
unfoldable pub fill_in : Text → Text → Option Text
fill_in [] param = none
fill_in (c ∷ cs) param =
    let later = fill_in cs param in
    if has_prefix (c ∷ cs) (codes "%s")
    then some (param ++ drop_bytes 2 (c ∷ cs))
    else elim later [ none ↦ none | some rest ↦ some (c ∷ rest) ]

unfoldable pub build_message : FieldError → Text
build_message fe = elim (lookup fe.tag messages) [
  | none ↦ codes "failed " ++ fe.tag ++ codes " validation"
  | some msg ↦ elim (fill_in msg fe.param) [
    | none ↦ msg
    | some filled ↦ if fe.param == [] then msg else filled
  ]
]

abbrev pub is_upper : ℕ → Bool
is_upper c = leb b'A' c && leb c b'Z'

abbrev pub lower : ℕ → ℕ
lower c = if is_upper c then c + 32 else c

-- The bytes after the first: an upper-case letter gets an underscore before it.
unfoldable pub snake_rest : Text → Text
snake_rest [] = []
snake_rest (c ∷ cs) =
    let rest = snake_rest cs in if is_upper c then b'_' ∷ lower c ∷ rest else c ∷ rest

unfoldable pub to_snake_case : Text → Text
to_snake_case [] = []
to_snake_case (c ∷ cs) = lower c ∷ snake_rest cs

-- The errors of the validator package as details; no errors give no details.
unfoldable pub validate_struct : List FieldError → List ErrorDetail
validate_struct [] = []
validate_struct (fe ∷ fes) =
    record { field = to_snake_case fe.field; message = build_message fe } ∷ validate_struct fes
