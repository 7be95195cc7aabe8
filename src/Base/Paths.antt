-- ===== src/Base/Paths.antt =====
-- Package path/filepath on Unix, as far as the program uses it: paths as texts whose elements stand
-- between slashes.
pub mod Parts
pub mod Joined
pub mod Below
use Prim.Native.Nat.{ℕ, zero, suc}
use Prim.Native.String.{String}
use mathlib.Core.Path.{◌≡◌, refl}
use mathlib.Core.Bool.{Bool, true, false, not, ◌||◌}
use mathlib.Core.Option.{Option, none, some}
use mathlib.Core.List.{List, [], ◌∷◌, ◌++◌}
use native.Mathlib.Omega.{arith}
use golang_base.Base.Tests.{eqb, if◌then◌else◌}
use golang_base.Base.Bytes.{Text, codes, ◌==◌}

-- `strings.Split(s, c)` for a separator of one byte.
unfoldable pub push_byte : ℕ → List Text → List Text
push_byte x [] = (x ∷ []) ∷ []
push_byte x (p ∷ ps) = (x ∷ p) ∷ ps

unfoldable pub split_on : ℕ → Text → List Text
split_on c [] = [] ∷ []
split_on c (x ∷ s) = let rest = split_on c s in if eqb x c then [] ∷ rest else push_byte x rest

-- `strings.Join(parts, "/")`
unfoldable pub join_slash : List Text → Text
join_slash [] = []
join_slash (p ∷ []) = p
join_slash (p ∷ q ∷ ps) = p ++ b'/' ∷ join_slash (q ∷ ps)

-- The reversed list before another.
unfoldable pub rev_onto {ℓ} : {A : Type ℓ} → List A → List A → List A
rev_onto [] acc = acc
rev_onto (x ∷ xs) acc = rev_onto xs (x ∷ acc)

-- What Clean has put out: the leading "..", and the elements after them, last first.
pub record Cleaned : Type 0 where
  pub ups : ℕ
  pub stack : List Text

unfoldable pub go_up : Bool → Cleaned → Cleaned
go_up rooted c = elim c.stack [
  | x ∷ rest ↦ record { ups = c.ups; stack = rest }
  | [] ↦ if rooted then c else record { ups = suc c.ups; stack = [] }
]

-- One element of the path.
unfoldable pub clean_part : Bool → Cleaned → Text → Cleaned
clean_part rooted c part =
    if part == [] || part == codes "."
    then c
    else if part == codes ".."
    then go_up rooted c
    else record { ups = c.ups; stack = part ∷ c.stack }

unfoldable pub clean_parts : Bool → Cleaned → List Text → Cleaned
clean_parts rooted c [] = c
clean_parts rooted c (part ∷ parts) = clean_parts rooted (clean_part rooted c part) parts

unfoldable pub dot_dots : ℕ → List Text → List Text
dot_dots zero parts = parts
dot_dots (suc n) parts = codes ".." ∷ dot_dots n parts

unfoldable pub render : Bool → List Text → Text
render true parts = b'/' ∷ join_slash parts
render false [] = codes "."
render false (p ∷ ps) = join_slash (p ∷ ps)

-- `filepath.IsAbs`
unfoldable pub is_abs : Text → Bool
is_abs [] = false
is_abs (c ∷ s) = eqb c b'/'

abbrev pub nothing_yet : Cleaned
nothing_yet = record { ups = 0; stack = [] }

-- `filepath.Clean`
unfoldable pub clean : Text → Text
clean s =
    let c = clean_parts (is_abs s) nothing_yet (split_on b'/' s) in
    render (is_abs s) (dot_dots c.ups (rev_onto c.stack []))

-- `filepath.Join(a, b)`: empty elements are left out.
unfoldable pub join_path : Text → Text → Text
join_path [] [] = []
join_path [] (y ∷ b) = clean (y ∷ b)
join_path (x ∷ a) [] = clean (x ∷ a)
join_path (x ∷ a) (y ∷ b) = clean ((x ∷ a) ++ b'/' ∷ y ∷ b)

-- The elements of a clean path.
unfoldable pub nonempty_parts : List Text → List Text
nonempty_parts [] = []
nonempty_parts (p ∷ ps) =
    let rest = nonempty_parts ps in if p == [] || p == codes "." then rest else p ∷ rest

-- The elements that are left of both lists after the common ones.
unfoldable pub after_common : List Text → List Text → List Text × List Text
after_common [] ts = ([], ts)
after_common (b ∷ bs) [] = (b ∷ bs, [])
after_common (b ∷ bs) (t ∷ ts) = elim (b == t) [
  | true ↦ after_common bs ts
  | false ↦ (b ∷ bs, t ∷ ts)
]

-- One ".." for each element.
unfoldable pub back_up : List Text → List Text → List Text
back_up [] ts = ts
back_up (b ∷ bs) ts = codes ".." ∷ back_up bs ts

unfoldable pub rel_parts : List Text → List Text → Option Text
rel_parts [] ts = some (join_slash ts)
rel_parts (b ∷ bs) ts = if b == codes ".." then none else some (join_slash (back_up (b ∷ bs) ts))

-- Both absolute or both relative.
abbrev same_start : Bool → Bool → Bool
same_start true b = b
same_start false b = not b

-- `filepath.Rel`; `none` is its error.
unfoldable pub rel_path : Text → Text → Option Text
rel_path base' targ' =
    let base = clean base' in
    let targ = clean targ' in
    if base == targ
    then some (codes ".")
    else if same_start (is_abs base) (is_abs targ)
    then (let (bs, ts) =
          after_common (nonempty_parts (split_on b'/' base))
            (nonempty_parts (split_on b'/' targ)) in
        rel_parts bs ts)
    else none

-- The part after the last occurrence of a byte and the part up to and with it.
unfoldable pub cut_last : ℕ → Text → Option (Text × Text)
cut_last c [] = none
cut_last c (x ∷ s) = elim (cut_last c s) [
  | some (a, b) ↦ some (x ∷ a, b)
  | none ↦ if eqb x c then some (x ∷ [], s) else none
]

-- `filepath.Dir`
unfoldable pub dir : Text → Text
dir s = elim (cut_last b'/' s) [ none ↦ clean [] | some (a, b) ↦ clean a ]

-- `strings.TrimRight(s, c)` and `strings.TrimLeft(s, c)` for one byte.
unfoldable pub trim_right : ℕ → Text → Text
trim_right c [] = []
trim_right c (x ∷ s) =
    let rest = trim_right c s in if rest == [] then (if eqb x c then [] else x ∷ []) else x ∷ rest

unfoldable pub trim_left : ℕ → Text → Text
trim_left c [] = []
trim_left c (x ∷ s) = let rest = trim_left c s in if eqb x c then rest else x ∷ s

-- `filepath.Ext`: from the last dot of the last element.
unfoldable pub ext : Text → Text
ext s = elim (cut_last b'.' s) [
  | none ↦ []
  | some (before, after) ↦ elim (cut_last b'/' after) [ none ↦ b'.' ∷ after | some (a, b) ↦ [] ]
]

-- `filepath.Base`
unfoldable pub base_name : Text → Text
base_name [] = codes "."
base_name (x ∷ s) =
    let stripped = trim_right b'/' (x ∷ s) in
    if stripped == []
    then codes "/"
    else elim (cut_last b'/' stripped) [ none ↦ stripped | some (a, b) ↦ b ]
