-- ===== src/Base/Paths/Joined.antt =====
-- Joining a clean path of names to an absolute one.
use Prim.Native.Nat.{ℕ}
use mathlib.Core.Path.{◌≡◌, refl, ap, ◌∙◌}
use mathlib.Core.Bool.{true, false}
use mathlib.Core.List.{List, [], ◌∷◌, ◌++◌}
use native.Mathlib.Omega.{arith}
use golang_base.Base.Lists.{All}
use golang_base.Base.Bytes.{Text, ◌==◌}
use golang_base.Base.Paths.{
  push_byte, split_on, join_slash, rev_onto, Cleaned, clean_part, clean_parts, nothing_yet,
  dot_dots, render, is_abs, clean, join_path,
}
use golang_base.Base.Paths.Parts.{
  IsFree, IsPart, split-append, split-join_slash, rev_onto-rev_onto, clean_parts-append,
  clean_parts-push,
}

pub parts-IsFree : (ps : List Text) → All IsPart ps → All IsFree ps
parts-IsFree [] h = tt
parts-IsFree (p ∷ ps) h = (h.0.0, parts-IsFree ps h.1)

-- Reading a path of names gives the names back.
pub read_joined :
    (c : Cleaned) (ps : List Text)
    → All IsPart ps
    → clean_parts true c (split_on b'/' (join_slash ps))
      ≡ record { ups = c.ups; stack = rev_onto ps c.stack }
unfolding join_slash split_on clean_parts clean_part ◌==◌ rev_onto
read_joined c [] h = refl
read_joined c (p ∷ ps) h =
    rw (split-join_slash p ps (parts-IsFree (p ∷ ps) h)) (clean_parts-push true c (p ∷ ps) h)

read_rendered :
    (c : Cleaned) (ps : List Text)
    → All IsPart ps
    → clean_parts true c (split_on b'/' (render false ps))
      ≡ record { ups = c.ups; stack = rev_onto ps c.stack }
unfolding render split_on push_byte clean_parts clean_part ◌==◌ rev_onto
read_rendered c [] h = refl
read_rendered c (p ∷ ps) h = read_joined c (p ∷ ps) h

render-cons : (ps : List Text) → All IsPart ps → (y : ℕ) × (t : Text) × (render false ps ≡ y ∷ t)
unfolding render join_slash ◌==◌
render-cons [] h = (_, _, refl)
render-cons ([] ∷ ps) h = absurd (ground (arith, h.0.1))
render-cons ((y ∷ p) ∷ []) h = (y, p, refl)
render-cons ((y ∷ p) ∷ q ∷ ps) h = (y, p ++ b'/' ∷ join_slash (q ∷ ps), refl)

pub append_nil : (xs : List Text) → xs ++ [] ≡ xs
append_nil [] = refl
append_nil (x ∷ xs) = ap (λ l. x ∷ l) (append_nil xs)

-- The elements of two paths with a slash between them.
read_both :
    (bs ps : List Text)
    → All IsPart bs
    → All IsPart ps
    → clean_parts true nothing_yet
        (split_on b'/' (b'/' ∷ (join_slash bs ++ b'/' ∷ render false ps)))
      ≡ record { ups = 0; stack = rev_onto ps (rev_onto bs []) }
unfolding split_on clean_parts clean_part ◌==◌
read_both bs ps base names = rw (split-append b'/' (join_slash bs) (render false ps)) (
    clean_parts-append true nothing_yet (split_on b'/' (join_slash bs))
      (split_on b'/' (render false ps))
    ∙ rw (read_joined nothing_yet bs base)
        (read_rendered (record { ups = 0; stack = rev_onto bs [] }) ps names))

-- Joining a clean relative path of names to a clean absolute one.
pub join_path_lem :
    (bs ps : List Text)
    → All IsPart bs
    → All IsPart ps
    → join_path (b'/' ∷ join_slash bs) (render false ps) ≡ b'/' ∷ join_slash (bs ++ ps)
unfolding join_path clean is_abs render dot_dots rev_onto
join_path_lem bs ps base names =
    let (y, t, e) = render-cons ps names in
    let step : join_path (b'/' ∷ join_slash bs) (render false ps)
        ≡ clean (b'/' ∷ (join_slash bs ++ b'/' ∷ render false ps)) =
      rw (e, join_path) refl in
    let unrolled : rev_onto (rev_onto ps (rev_onto bs [])) [] ≡ bs ++ ps =
      rev_onto-rev_onto ps (rev_onto bs []) []
      ∙ (rev_onto-rev_onto bs [] (ps ++ []) ∙ ap (λ l. bs ++ l) (append_nil ps)) in
    step ∙ rw (read_both bs ps base names, clean) (ap (λ l. b'/' ∷ join_slash l) unrolled)
