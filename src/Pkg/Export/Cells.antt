-- ===== src/Pkg/Export/Cells.antt =====
-- internal/pkg/export/struct.go: what FromStructs makes of a slice of structs.
use mathlib.Core.List.{append_assoc, append-nil}
use golang_base.Base.{
  ℕ, zero, suc, Bool, true, false, not, Option, none, some, List, [], ◌∷◌, ◌++◌, Text, codes, map,
  ◌==◌, All, lookup, insert, lookup-insert, ◌≡◌, refl, ◌∙◌, sym, arith, if◌then◌else◌,
}
use golang_base.Domain.Errors.{ok}
use golang_base.Pkg.Export.{
  GoType, Fields, end, field, GoValue, leaf, null, to, object, Values, no_values, value, Column,
  Row, Table, FieldSpec, slice_of, first_part, parse_export_tag, align_for_type,
  underlying_struct_type, deref, is_skipped, header_of, specs_from, exportable_fields, columns_from,
  columns_for, field_at, spec_value, columns_of, fill_row, table_rows, from_structs,
}

-- A field is shown if it is exported and its tag "export", or if it has none its tag "json", does
-- not begin with the name "-".
abbrev pub is_shown : Bool → Option Text → Option Text → Bool
is_shown false export json = false
is_shown true (some tag) json = not (first_part tag == codes "-")
is_shown true none (some tag) = not (first_part tag == codes "-")
is_shown true none none = true

abbrev pub field_names : Fields → List Text
field_names end = []
field_names (field name exported export json t fs) = name ∷ field_names fs

-- The fields of a struct have different names.
abbrev pub IsDistinct : Fields → Type 0
IsDistinct end = Unit
IsDistinct (field name exported export json t fs) =
    All (λ n. (name == n) ≡ false) (field_names fs) × IsDistinct fs

-- The names of the fields that are shown, in order.
abbrev pub shown_names : Fields → List Text
shown_names end = []
shown_names (field name exported export json t fs) =
    if is_shown exported export json then name ∷ shown_names fs else shown_names fs

abbrev pub readable : Bool → GoValue → Option GoValue
readable true v = some v
readable false v = none

-- The cells of a struct with these values: one for each field that is shown.
unfoldable pub cells : Fields → Values → Row
cells end vs = []
cells (field name exported export json t fs) (value can_interface v vs) =
    let later = cells fs vs in
    if is_shown exported export json then (name, readable can_interface v) ∷ later else later
cells (field name exported export json t fs) no_values =
    let later = cells fs no_values in
    if is_shown exported export json then (name, none) ∷ later else later

-- The values of a struct behind any pointers; none behind a nil pointer.
unfoldable pub values_of : GoValue → Values
values_of (object vs) = vs
values_of (to v) = values_of v
values_of null = no_values
values_of (leaf n) = no_values

is_skipped_lem :
    (exported : Bool) (export json : Option Text)
    → is_skipped exported export json ≡ not (is_shown exported export json)
unfolding is_skipped parse_export_tag ◌==◌
is_skipped_lem false export json = refl
is_skipped_lem true (some tag) json = ground arith
is_skipped_lem true none (some tag) = ground arith
is_skipped_lem true none none = refl

-- The two loops over the fields choose the same columns.
columns_of-specs_from : (i : ℕ) (fs : Fields) → columns_of (specs_from i fs) ≡ columns_from fs
unfolding columns_of specs_from columns_from
columns_of-specs_from i end = refl
columns_of-specs_from i (field name exported export json t fs) =
    ground (arith, columns_of-specs_from (suc i) fs)

columns_from-shown : (fs : Fields) → map (λ (c : Column). c.key) (columns_from fs) ≡ shown_names fs
unfolding columns_from
columns_from-shown end = refl
columns_from-shown (field name exported export json t fs) =
    ground (arith, is_skipped_lem exported export json, columns_from-shown fs)

-- The values from number `i` on.
abbrev after : ℕ → Values → Values
after zero vs = vs
after (suc i) no_values = no_values
after (suc i) (value can_interface v vs) = after i vs

abbrev tail : Values → Values
tail no_values = no_values
tail (value can_interface v vs) = vs

abbrev first : Values → Option GoValue
first no_values = none
first (value can_interface v vs) = readable can_interface v

field_at-after : (i : ℕ) (vs : Values) → field_at i vs ≡ first (after i vs)
unfolding field_at
field_at-after zero no_values = refl
field_at-after zero (value true v vs) = refl
field_at-after zero (value false v vs) = refl
field_at-after (suc i) no_values = refl
field_at-after (suc i) (value can_interface v vs) = field_at-after i vs

after-suc : (i : ℕ) (vs : Values) → after (suc i) vs ≡ tail (after i vs)
after-suc zero no_values = refl
after-suc zero (value can_interface v vs) = refl
after-suc (suc i) no_values = refl
after-suc (suc i) (value can_interface v vs) = after-suc i vs

cells-step :
    (name : Text) (exported : Bool) (export json : Option Text) (t : GoType) (fs : Fields)
    (vs : Values)
    → cells (field name exported export json t fs) vs ≡ (
        if is_shown exported export json
        then (name, first vs) ∷ cells fs (tail vs)
        else cells fs (tail vs))
unfolding cells
cells-step name exported export json t fs no_values = refl
cells-step name exported export json t fs (value can_interface v vs) = refl

field_at-values_of :
    (spec : FieldSpec) (v : GoValue) → spec_value spec v ≡ field_at spec.index (values_of v)
unfolding spec_value deref values_of field_at
field_at-values_of spec (leaf n) = refl
field_at-values_of spec null = refl
field_at-values_of spec (to v) = field_at-values_of spec v
field_at-values_of spec (object vs) = refl

insert-fresh :
    (k : Text) (x : Option GoValue) (row : Row)
    → lookup k row ≡ none
    → insert k x row ≡ row ++ (k, x) ∷ []
unfolding insert lookup
insert-fresh k x [] h = refl
insert-fresh k x ((j, w) ∷ row) h = ground (arith, insert-fresh k x row)

abbrev IsFresh : List Text → Row → Type 0
IsFresh names row = All (λ n. lookup n row ≡ none) names

IsFresh-insert :
    (names : List Text) (k : Text) (x : Option GoValue) (row : Row)
    → All (λ n. (k == n) ≡ false) names
    → IsFresh names row
    → IsFresh names (insert k x row)
IsFresh-insert [] k x row other h = tt
IsFresh-insert (n ∷ names) k x row other h = (
  lookup-insert k n x row ∙ ground (arith, other.0, h.0),
  IsFresh-insert names k x row other.1 h.1,
)

-- The loop over the fields puts the cells behind what the row holds.
fill_row-cells :
    (fs : Fields) (i : ℕ) (v : GoValue) (row : Row)
    → IsDistinct fs
    → IsFresh (field_names fs) row
    → fill_row (specs_from i fs) v row ≡ row ++ cells fs (after i (values_of v))
unfolding fill_row specs_from
fill_row-cells end i v row distinct fresh = unfold cells in (sym (append-nil row))
fill_row-cells (field name exported export json t fs) i v row distinct fresh =
    let vs = values_of v in
    let spec : FieldSpec = record {
      key = name;
      header = header_of name (parse_export_tag export json);
      align = align_for_type t;
      index = i;
    } in
    let x = first (after i vs) in
    let filled : spec_value spec v ≡ x = field_at-values_of spec v ∙ field_at-after i vs in
    let longer = insert name x row in
    ground (
      arith,
      is_skipped_lem exported export json,
      filled,
      after-suc i vs,
      cells-step name exported export json t fs (after i vs),
      insert-fresh name x row fresh.0,
      append_assoc row ((name, x) ∷ []) (cells fs (tail (after i vs))),
      fill_row-cells fs (suc i) v row distinct.1 fresh.1,
      fill_row-cells fs (suc i) v longer distinct.1
          (IsFresh-insert (field_names fs) name x row distinct.0 fresh.1),
    )

IsFresh-nil : (names : List Text) → IsFresh names []
unfolding lookup
IsFresh-nil [] = tt
IsFresh-nil (n ∷ names) = (refl, IsFresh-nil names)

table_rows-cells :
    (fs : Fields) (items : List GoValue)
    → IsDistinct fs
    → table_rows (specs_from 0 fs) items ≡ map (λ v. cells fs (values_of v)) items
unfolding table_rows
table_rows-cells fs [] distinct = refl
table_rows-cells fs (v ∷ items) distinct = ground (
  arith,
  fill_row-cells fs 0 v [] distinct (IsFresh-nil (field_names fs)),
  table_rows-cells fs items distinct,
)

-- From a slice whose elements are, behind any pointers, structs with these fields, of different
-- names, FromStructs makes one row for each element, of one cell for each field that is shown, in
-- order, with the element's value of that field; and the columns' keys are the names of the fields
-- that are shown, also if the slice is empty. A field is shown if it is exported and the first part
-- of its tag "export" is not "-", whatever its tag "json", or, if it has no tag "export", the first
-- part of its tag "json" is not "-".
pub from_structs-cells :
    (elem_type : GoType) (fs : Fields) (items : List GoValue)
    → underlying_struct_type elem_type ≡ some fs
    → IsDistinct fs
    → (table : Table) × (from_structs (slice_of elem_type items) ≡ ok table)
      × (map (λ (c : Column). c.key) table.columns ≡ shown_names fs)
      × (table.rows ≡ map (λ v. cells fs (values_of v)) items)
unfolding from_structs exportable_fields columns_for
from_structs-cells elem_type fs [] typed distinct = (
  record { columns = columns_from fs; rows = [] },
  ground (arith, typed),
  columns_from-shown fs,
  refl,
)
from_structs-cells elem_type fs (v ∷ items) typed distinct = (
  record { columns = columns_from fs; rows = map (λ v. cells fs (values_of v)) (v ∷ items) },
  ground (arith, typed, columns_of-specs_from 0 fs, table_rows-cells fs (v ∷ items) distinct),
  columns_from-shown fs,
  refl,
)
