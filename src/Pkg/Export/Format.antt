-- ===== src/Pkg/Export/Format.antt =====
-- internal/pkg/export/format.go and file.go, and the cell numbers of export/excel/excel.go.
use golang_base.Base.{
  ℕ, suc, Bool, true, false, ◌||◌, Option, none, some, [], ◌∷◌, Text, codes, eqb, ℤ, pos, negsuc,
  if◌then◌else◌,
}
use golang_base.Base.Decimal.{format_decimal}
use golang_base.Infra.{Write}
use golang_base.Infra.Monad.{◌>>◌, skip}

-- Package time, the floating-point numbers (`F`) and fmt.Sprint on other values (`X`).
pub record Formats (T F X : Type 0) : Type 0 where
  pub is_zero : T → Bool
  pub format_time : T → Text
  pub to_int64 : F → ℤ
  pub equals_int : F → ℤ → Bool
  pub format_float : F → Text
  pub sprint : X → Text

-- The values that the type switch tells apart; both widths of float are given as a float64.
pub data Cell (T F X : Type 0) : Type 0 where
  absent : Cell T F X
  text : Text → Cell T F X
  boolean : Bool → Cell T F X
  time : T → Cell T F X
  time_pointer : Option T → Cell T F X
  raw_bytes : Text → Cell T F X
  float : F → Cell T F X
  int : ℤ → Cell T F X
  uint : ℕ → Cell T F X
  other : X → Cell T F X

-- `strconv.FormatInt(i, 10)`
unfoldable pub format_int : ℤ → Text
format_int (pos n) = format_decimal n
format_int (negsuc n) = b'-' ∷ format_decimal (suc n)

module _ {T F X : Type 0} (formats : Formats T F X) where
  unfoldable pub format_float64 : F → Text
  format_float64 f =
      if formats.equals_int f (formats.to_int64 f)
      then format_int (formats.to_int64 f)
      else formats.format_float f

  unfoldable pub format_time_or_empty : T → Text
  format_time_or_empty t = if formats.is_zero t then [] else formats.format_time t

  unfoldable pub format_value : Cell T F X → Text
  unfolding format_float64 format_time_or_empty format_int
  format_value absent = []
  format_value (text s) = s
  format_value (boolean true) = codes "true"
  format_value (boolean false) = codes "false"
  format_value (time t) = format_time_or_empty t
  format_value (time_pointer none) = []
  format_value (time_pointer (some t)) = format_time_or_empty t
  format_value (raw_bytes b) = b
  format_value (float f) = format_float64 f
  format_value (int i) = format_int i
  format_value (uint n) = format_decimal n
  format_value (other x) = formats.sprint x

abbrev has_slash : Text → Bool
has_slash [] = false
has_slash (c ∷ cs) = eqb c b'/' || has_slash cs

-- dirOf: what stands before the last slash.
unfoldable pub dir_of : Text → Text
dir_of [] = []
dir_of (c ∷ cs) = elim (has_slash cs) [ true ↦ c ∷ dir_of cs | false ↦ [] ]

-- Package os; the file's permission bits are a number.
pub record FileSystem (S : Type 0) : Type 0 where
  pub mkdir_all : Text → ℕ → Write S
  pub write_file : Text → Text → ℕ → Write S

unfoldable pub write_file : {S : Type 0} → FileSystem S → Text → Text → ℕ → Write S
write_file fs path bytes perm =
    let perm : ℕ = if eqb perm 0 then 420 else perm in
    (elim (dir_of path) [ [] ↦ skip | c ∷ cs ↦ fs.mkdir_all (c ∷ cs) 493 ])
    >> fs.write_file path bytes perm
