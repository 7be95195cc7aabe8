-- ===== src/Base/Bytes.antt =====
-- Go strings: sequences of bytes, with the tests of package strings that the program uses.
use Prim.Native.Nat.{ℕ, zero, suc}
use Prim.Native.Char.{code}
use Prim.Native.String.{String}
use mathlib.Core.Path.{◌≡◌, refl, ap}
use mathlib.Core.Logic.{◌↔◌, inl, inr}
use mathlib.Core.Bool.{Bool, true, false, ◌&&◌, ◌||◌}
use mathlib.Core.Option.{Option, none, some}
use mathlib.Core.List.{List, [], ◌∷◌, ◌++◌}
use native.Mathlib.Omega.{arith}
use golang_base.Base.Tests.{eqb, if◌then◌else◌, Bool-cases, Option-cases}
use golang_base.Base.Lists.{any, length, length-append}

abbrev pub Text : Type 0
Text = List ℕ

-- The bytes of an ASCII literal.
abbrev pub codes : String → Text
codes String.[] = []
codes (String.◌∷◌ c s) = code c ∷ codes s

infix 50 ◌==◌
unfoldable pub ◌==◌ : Text → Text → Bool
[] == [] = true
[] == (y ∷ t) = false
(x ∷ s) == [] = false
(x ∷ s) == (y ∷ t) = eqb x y && (s == t)

pub eq_refl : (s : Text) → (s == s) ≡ true
unfolding ◌==◌
eq_refl [] = refl
eq_refl (x ∷ s) = ground (arith, eq_refl s)

pub eq_of_test : (s t : Text) → (s == t) ≡ true → s ≡ t
unfolding ◌==◌
eq_of_test [] [] h = refl
eq_of_test [] (y ∷ t) h = cc
eq_of_test (x ∷ s) [] h = cc
eq_of_test (x ∷ s) (y ∷ t) h = ground (arith, eq_of_test s t)

pub eq_iff : (s t : Text) → ((s == t) ≡ true) ↔ (s ≡ t)
eq_iff s t = (eq_of_test s t, λ e. rw e (eq_refl t))

-- `slices.Contains`
unfoldable pub contains : Text → List Text → Bool
contains k [] = false
contains k (x ∷ xs) = x == k || contains k xs

module _ (f : Text → Bool) where
  pub any_of_contains :
      (k : Text) (xs : List Text) → contains k xs ≡ true → f k ≡ true → any f xs ≡ true
  unfolding contains
  any_of_contains k [] h e = cc
  any_of_contains k (x ∷ xs) h e = ground (arith, eq_of_test x k, any_of_contains k xs)

  pub contains_of_any :
      (xs : List Text) → any f xs ≡ true → (k : Text) × (contains k xs ≡ true) × (f k ≡ true)
  unfolding contains
  contains_of_any [] h = cc
  contains_of_any (x ∷ xs) h = elim (Bool-cases (f x)) [
    | inl here ↦ (x, ground (arith, eq_refl x), here)
    | inr there ↦ let (k, listed, e) = contains_of_any xs (ground arith) in (k, ground arith, e)
  ]

-- `strings.HasPrefix(s, prefix)`
unfoldable pub has_prefix : Text → Text → Bool
has_prefix s [] = true
has_prefix [] (y ∷ t) = false
has_prefix (x ∷ s) (y ∷ t) = eqb x y && has_prefix s t

-- `strings.CutSuffix(s, suffix)`: the text before the suffix, if `s` ends with it.
unfoldable pub cut_suffix : Text → Text → Option Text
cut_suffix [] t = if t == [] then some [] else none
cut_suffix (x ∷ s) t =
    if (x ∷ s) == t
    then some []
    else elim (cut_suffix s t) [ none ↦ none | some before ↦ some (x ∷ before) ]

-- `strings.Index(s, c)` for a text of one byte; `none` stands for -1.
unfoldable pub index_byte : Text → ℕ → Option ℕ
index_byte [] c = none
index_byte (x ∷ s) c =
    if eqb x c then some zero else elim (index_byte s c) [ none ↦ none | some i ↦ some (suc i) ]

-- `s[n:]` for a number within the length.
unfoldable pub drop_bytes : ℕ → Text → Text
drop_bytes zero s = s
drop_bytes (suc n) [] = []
drop_bytes (suc n) (c ∷ s) = drop_bytes n s

-- `s[:n]` for a number within the length.
unfoldable pub take_bytes : ℕ → Text → Text
take_bytes zero s = []
take_bytes (suc n) [] = []
take_bytes (suc n) (x ∷ s) = x ∷ take_bytes n s

pub has_prefix_append : (p r : Text) → has_prefix (p ++ r) p ≡ true
unfolding has_prefix
has_prefix_append [] r = refl
has_prefix_append (x ∷ p) r = ground (arith, has_prefix_append p r)

-- `HasPrefix` finds exactly the texts that extend the prefix.
pub has_prefix_split : (s p : Text) → has_prefix s p ≡ true → (r : Text) × (s ≡ p ++ r)
unfolding has_prefix
has_prefix_split s [] h = (s, refl)
has_prefix_split [] (y ∷ p) h = cc
has_prefix_split (x ∷ s) (y ∷ p) h =
    let (r, e) = has_prefix_split s p (ground arith) in (r, ground arith)

pub cut_suffix_sound : (s t b : Text) → cut_suffix s t ≡ some b → s ≡ b ++ t
unfolding cut_suffix
cut_suffix_sound [] t b h = ground (arith, eq_iff t [])
cut_suffix_sound (x ∷ s) t b h = elim (Bool-cases ((x ∷ s) == t)) [
  | inl same ↦ ground (arith, eq_iff (x ∷ s) t)
  | inr other ↦ elim (Option-cases (cut_suffix s t)) [
    | inl missed ↦ ground arith
    | inr (before, found) ↦ ground (arith, cut_suffix_sound s t before found)
  ]
]

longer_ne : (x : ℕ) (b t : Text) → ((x ∷ (b ++ t)) == t) ≡ false
longer_ne x b t = elim (Bool-cases ((x ∷ (b ++ t)) == t)) [
  | inl same ↦ absurd (omega (arith, ap length (eq_of_test _ t same), length-append b t))
  | inr other ↦ other
]

pub cut_suffix_append : (b t : Text) → cut_suffix (b ++ t) t ≡ some b
unfolding cut_suffix
cut_suffix_append [] [] = ground (arith, eq_refl [])
cut_suffix_append [] (y ∷ t) = rw (eq_refl (y ∷ t))
cut_suffix_append (x ∷ b) t = rw (longer_ne x b t, cut_suffix_append b t)
