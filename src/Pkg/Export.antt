-- ===== src/Pkg/Export.antt =====
-- internal/pkg/export/struct.go and export.go: a table made of a slice of structs. What package
-- reflect sees of a type and of a value is data here. A column's width and weight stay zero and are
-- left out.
pub mod Format
pub mod Cells
use golang_base.Base.{
  ℕ, zero, suc, Bool, true, false, Option, none, some, List, [], ◌∷◌, Text, codes, ◌==◌, Dict,
  insert, if◌then◌else◌,
}
use golang_base.Base.Paths.{split_on}
use golang_base.Domain.Errors.{Error, message, Result, ok, err}

-- The kinds of the types that are neither pointers, lists nor structs.
pub data Scalar : Type 0 where
  integer unsigned floating boolean text other : Scalar

-- A field: its name, whether it is exported, its tags "export" and "json", and its type.
mutual
  pub data GoType : Type 0 where
    scalar : Scalar → GoType
    ptr : GoType → GoType
    slice : GoType → GoType
    array : GoType → GoType
    struct : Fields → GoType

  pub data Fields : Type 0 where
    end : Fields
    field : Text → Bool → Option Text → Option Text → GoType → Fields → Fields

-- A value: of a type that is no pointer and no struct, named by a number; a pointer; a struct. With
-- each field stands whether CanInterface holds.
mutual
  pub data GoValue : Type 0 where
    leaf : ℕ → GoValue
    null : GoValue
    to : GoValue → GoValue
    object : Values → GoValue

  pub data Values : Type 0 where
    no_values : Values
    value : Bool → GoValue → Values → Values

pub record Column : Type 0 where
  pub header : Text
  pub key : Text
  pub align : Text

-- A cell is none where the code puts nil.
abbrev pub Row : Type 0
Row = Dict (Option GoValue)

pub record Table : Type 0 where
  pub columns : List Column
  pub rows : List Row

pub record FieldSpec : Type 0 where
  pub key : Text
  pub header : Text
  pub align : Text
  pub index : ℕ

-- What FromStructs is given: a slice, with the type of its elements, or something else.
pub data Items : Type 0 where
  not_slice : Items
  slice_of : GoType → List GoValue → Items

-- `strings.Split(tag, ",")[0]`
unfoldable pub first_part : Text → Text
first_part tag = elim (split_on b',' tag) [ [] ↦ [] | part ∷ parts ↦ part ]

unfoldable pub parse_export_tag : Option Text → Option Text → Text
parse_export_tag (some tag) json = first_part tag
parse_export_tag none none = []
parse_export_tag none (some tag) = if first_part tag == codes "-" then codes "-" else []

unfoldable pub align_for_type : GoType → Text
align_for_type (ptr t) = align_for_type t
align_for_type (scalar integer) = codes "right"
align_for_type (scalar unsigned) = codes "right"
align_for_type (scalar floating) = codes "right"
align_for_type (scalar boolean) = codes "left"
align_for_type (scalar text) = codes "left"
align_for_type (scalar other) = codes "left"
align_for_type (slice t) = codes "left"
align_for_type (array t) = codes "left"
align_for_type (struct fs) = codes "left"

-- `none` is the nil type.
unfoldable pub underlying_struct_type : GoType → Option Fields
underlying_struct_type (ptr t) = underlying_struct_type t
underlying_struct_type (slice t) = underlying_struct_type t
underlying_struct_type (array t) = underlying_struct_type t
underlying_struct_type (scalar k) = none
underlying_struct_type (struct fs) = some fs

-- `none` is the zero Value.
unfoldable pub deref : GoValue → Option GoValue
deref null = none
deref (to v) = deref v
deref (leaf n) = some (leaf n)
deref (object vs) = some (object vs)

-- Whether the loops over the fields pass over a field.
unfoldable pub is_skipped : Bool → Option Text → Option Text → Bool
is_skipped exported export json =
    if exported then parse_export_tag export json == codes "-" else true

unfoldable pub header_of : Text → Text → Text
header_of name tag = if tag == [] then name else tag

-- The fields from number `i` on.
unfoldable pub specs_from : ℕ → Fields → List FieldSpec
specs_from i end = []
specs_from i (field name exported export json t fs) =
    let later = specs_from (suc i) fs in
    if is_skipped exported export json
    then later
    else record {
      key = name;
      header = header_of name (parse_export_tag export json);
      align = align_for_type t;
      index = i;
    }
      ∷ later

unfoldable pub exportable_fields : GoType → List FieldSpec
exportable_fields t = elim (underlying_struct_type t) [ none ↦ [] | some fs ↦ specs_from 0 fs ]

unfoldable pub columns_from : Fields → List Column
columns_from end = []
columns_from (field name exported export json t fs) =
    let later = columns_from fs in
    if is_skipped exported export json
    then later
    else record {
      header = header_of name (parse_export_tag export json);
      key = name;
      align = align_for_type t;
    }
      ∷ later

unfoldable pub columns_for : Option Fields → List Column
columns_for none = []
columns_for (some fs) = columns_from fs

-- `v.Field(i)`, where it is there and may be read.
unfoldable pub field_at : ℕ → Values → Option GoValue
field_at i no_values = none
field_at zero (value can_interface v vs) = if can_interface then some v else none
field_at (suc i) (value can_interface v vs) = field_at i vs

unfoldable pub spec_value : FieldSpec → GoValue → Option GoValue
spec_value spec v = elim (deref v) [
  | some (object vs) ↦ field_at spec.index vs
  | some (leaf n) ↦ none
  | some null ↦ none
  | some (to w) ↦ none
  | none ↦ none
]

unfoldable pub columns_of : List FieldSpec → List Column
columns_of [] = []
columns_of (spec ∷ specs) =
    record { header = spec.header; key = spec.key; align = spec.align } ∷ columns_of specs

unfoldable pub fill_row : List FieldSpec → GoValue → Row → Row
fill_row [] v row = row
fill_row (spec ∷ specs) v row = fill_row specs v (insert spec.key (spec_value spec v) row)

unfoldable pub table_rows : List FieldSpec → List GoValue → List Row
table_rows specs [] = []
table_rows specs (v ∷ vs) = fill_row specs v [] ∷ table_rows specs vs

abbrev pub err_not_slice : Error
err_not_slice = message (codes "export: expected a slice of structs")

unfoldable pub from_structs : Items → Result Table
from_structs not_slice = err err_not_slice
from_structs (slice_of elem_type []) =
    ok (record { columns = columns_for (underlying_struct_type elem_type); rows = [] })
from_structs (slice_of elem_type (v ∷ vs)) =
    let fields = exportable_fields elem_type in
    ok (record { columns = columns_of fields; rows = table_rows fields (v ∷ vs) })
