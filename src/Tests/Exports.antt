-- ===== src/Tests/Exports.antt =====
-- The theorem on tables, at a struct with a secret: `Name`, `Hash` with the tag json:"-", and
-- `Age` with the tag export:"Years,omitempty".
use golang_base.Base.{ℕ, true, false, none, some, List, [], ◌∷◌, codes, ◌==◌, map, ◌≡◌, refl}
use golang_base.Base.Decimal.{emit, format_decimal}
use golang_base.Base.Paths.{push_byte, split_on}
use golang_base.Base.{negsuc}
use golang_base.Domain.Errors.{ok}
use golang_base.Pkg.Export.{
  Scalar, GoType, Fields, end, field, GoValue, Values, Column, Table, slice_of, first_part,
  is_skipped, parse_export_tag, underlying_struct_type, from_structs,
}
use golang_base.Pkg.Export.Cells.{cells, values_of, from_structs-cells}
use golang_base.Pkg.Export.Format.{Cell, Formats, format_value, dir_of}

abbrev person : Fields
person = field (codes "Name") true none (some (codes "name")) (GoType.scalar Scalar.text) (
    field (codes "Hash") true none (some (codes "-")) (GoType.scalar Scalar.text) (
      field (codes "Age") true (some (codes "Years,omitempty")) none
        (GoType.ptr (GoType.scalar Scalar.integer)) end))

abbrev ann : GoValue
ann = GoValue.to (
    GoValue.object (
      Values.value true (GoValue.leaf 1)
        (Values.value true (GoValue.leaf 2) (Values.value true GoValue.null Values.no_values))))

abbrev people : List GoValue
people = ann ∷ GoValue.null ∷ []

from_structs-cells_example :
    (table : Table) × (from_structs (slice_of (GoType.ptr (GoType.struct person)) people)
      ≡ ok table)
    × (map (λ (c : Column). c.key) table.columns ≡ codes "Name" ∷ codes "Age" ∷ [])
    × (table.rows ≡ map (λ v. cells person (values_of v)) people)
unfolding underlying_struct_type first_part parse_export_tag split_on push_byte ◌==◌
from_structs-cells_example =
    from_structs-cells (GoType.ptr (GoType.struct person)) person people refl
      ((refl, (refl, tt)), ((refl, tt), (tt, tt)))

-- The tag "json" hides a field only if it has no tag "export".
hidden_fields :
    (is_skipped true none (some (codes "-")) ≡ true)
    × (is_skipped true (some (codes "Hash")) (some (codes "-")) ≡ false)
unfolding is_skipped first_part parse_export_tag split_on push_byte ◌==◌
hidden_fields = (refl, refl)

-- The cells of the first row: the secret is not among them.
cells-ann :
    cells person (values_of ann)
    ≡ (codes "Name", some (GoValue.leaf 1)) ∷ (codes "Age", some GoValue.null) ∷ []
unfolding cells values_of first_part split_on push_byte ◌==◌
cells-ann = refl

abbrev formats : Formats ℕ ℕ ℕ
formats = record {
  is_zero = λ t. false;
  format_time = λ t. [];
  to_int64 = λ f. negsuc f;
  equals_int = λ f i. false;
  format_float = λ f. [];
  sprint = λ x. [];
}

minus_twelve : format_value formats (Cell.int (negsuc 11)) ≡ codes "-12"
unfolding format_value format_decimal emit
minus_twelve = refl

dir_of_tests : (dir_of (codes "a/b/c.txt") ≡ codes "a/b") × (dir_of (codes "/c.txt") ≡ [])
unfolding dir_of
dir_of_tests = (refl, refl)
