-- ===== src/Base/Paths/Below.antt =====
-- The way from an absolute path to one below it.
use mathlib.Core.Path.{◌≡◌, refl, ap, ◌∙◌}
use mathlib.Core.Logic.{◌⊎◌, inl, inr}
use mathlib.Core.Bool.{true, false}
use mathlib.Core.Option.{some}
use mathlib.Core.List.{List, [], ◌∷◌, ◌++◌}
use native.Mathlib.Omega.{arith}
use golang_base.Base.Tests.{Bool-cases}
use golang_base.Base.Lists.{All}
use golang_base.Base.Bytes.{Text, codes, ◌==◌, eq_refl, has_prefix}
use golang_base.Base.Paths.{
  split_on, push_byte, join_slash, clean_parts, clean_part, nothing_yet, dot_dots, rev_onto, render,
  is_abs, clean, nonempty_parts, after_common, rel_parts, rel_path,
}
use golang_base.Base.Paths.Parts.{IsPart, split-join_slash, rev_onto-rev_onto}
use golang_base.Base.Paths.Joined.{append_nil, parts-IsFree, read_joined}

-- Clean leaves a clean absolute path as it is.
clean_fixed : (bs : List Text) → All IsPart bs → clean (b'/' ∷ join_slash bs) ≡ b'/' ∷ join_slash bs
unfolding clean is_abs render dot_dots rev_onto split_on clean_parts clean_part ◌==◌
clean_fixed bs h =
    let read : clean_parts true nothing_yet (split_on b'/' (b'/' ∷ join_slash bs))
        ≡ record { ups = 0; stack = rev_onto bs [] } =
      read_joined nothing_yet bs h in
    rw (read, clean) (ap (λ l. b'/' ∷ join_slash l) (rev_onto-rev_onto bs [] [] ∙ append_nil bs))

nonempty_parts_lem : (ps : List Text) → All IsPart ps → nonempty_parts ps ≡ ps
unfolding nonempty_parts
nonempty_parts_lem [] h = refl
nonempty_parts_lem (p ∷ ps) h =
    rw (h.0.1, nonempty_parts) (ap (λ l. p ∷ l) (nonempty_parts_lem ps h.1))

parts_of :
    (bs : List Text) → All IsPart bs → nonempty_parts (split_on b'/' (b'/' ∷ join_slash bs)) ≡ bs
unfolding nonempty_parts split_on push_byte join_slash ◌==◌
parts_of [] h = refl
parts_of (p ∷ ps) h =
    rw (split-join_slash p ps (parts-IsFree (p ∷ ps) h)) (nonempty_parts_lem (p ∷ ps) h)

after_common-append : (bs ps : List Text) → after_common bs (bs ++ ps) ≡ ([], ps)
unfolding after_common
after_common-append [] ps = refl
after_common-append (b ∷ bs) ps = rw (eq_refl b, after_common) (after_common-append bs ps)

append-All : (bs ps : List Text) → All IsPart bs → All IsPart ps → All IsPart (bs ++ ps)
append-All [] ps h k = k
append-All (b ∷ bs) ps h k = (h.0, append-All bs ps h.1 k)

-- From a directory to what is below it: the names, or ".".
pub rel_path_below :
    (bs ps : List Text)
    → All IsPart bs
    → All IsPart ps
    → (rel_path (b'/' ∷ join_slash bs) (b'/' ∷ join_slash (bs ++ ps)) ≡ some (codes "."))
      ⊎ (rel_path (b'/' ∷ join_slash bs) (b'/' ∷ join_slash (bs ++ ps)) ≡ some (join_slash ps))
unfolding rel_path rel_parts is_abs
rel_path_below bs ps base names =
    let a = b'/' ∷ join_slash bs in
    let b = b'/' ∷ join_slash (bs ++ ps) in
    elim (Bool-cases (a == b)) [
      | inl same ↦ inl (
          rw
            (
              clean_fixed bs base,
              clean_fixed (bs ++ ps) (append-All bs ps base names),
              same,
              rel_path,
            )
            refl)
      | inr other ↦ inr (
          rw
            (
              clean_fixed bs base,
              clean_fixed (bs ++ ps) (append-All bs ps base names),
              other,
              rel_path,
            )
            (rw (parts_of bs base, parts_of (bs ++ ps) (append-All bs ps base names))
              (rw (after_common-append bs ps) refl)))
    ]

-- A path of names does not lead up.
pub names_stay :
    (ps : List Text)
    → All IsPart ps
    → (is_abs (join_slash ps) ≡ false)
      × ((join_slash ps == codes "..") ≡ false)
      × (has_prefix (join_slash ps) (codes "../") ≡ false)
unfolding join_slash is_abs has_prefix ◌==◌
names_stay [] h = (refl, refl, refl)
names_stay (([]) ∷ ps) h = absurd (ground (arith, h.0.1))
names_stay ((x ∷ []) ∷ []) h = (ground (arith, h.0), ground arith, ground arith)
names_stay ((x ∷ y ∷ []) ∷ []) h = (ground (arith, h.0.0), ground (arith, h.0.2), ground arith)
names_stay ((x ∷ y ∷ z ∷ p) ∷ []) h = (ground (arith, h.0.0), ground arith, ground (arith, h.0.0))
names_stay ((x ∷ []) ∷ q ∷ ps) h = (ground (arith, h.0.0), ground arith, ground (arith, h.0.0))
names_stay ((x ∷ y ∷ []) ∷ q ∷ ps) h = (ground (arith, h.0.0), ground arith, ground (arith, h.0.2))
names_stay ((x ∷ y ∷ z ∷ p) ∷ q ∷ ps) h =
    (ground (arith, h.0.0), ground arith, ground (arith, h.0.0))
