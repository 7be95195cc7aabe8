-- ===== src/Base/Paths/Parts.antt =====
-- The elements of a path: what Clean puts out, and what a clean path is made of.
use Prim.Native.Nat.{ℕ, zero, suc}
use mathlib.Core.Path.{◌≡◌, refl, ap, ◌∙◌}
use mathlib.Core.Logic.{◌⊎◌, inl, inr}
use mathlib.Core.Bool.{Bool, true, false, ◌||◌}
use mathlib.Core.List.{List, [], ◌∷◌, ◌++◌}
use native.Mathlib.Omega.{arith}
use golang_base.Base.Tests.{eqb, Bool-cases}
use golang_base.Base.Lists.{All}
use golang_base.Base.Bytes.{Text, codes, ◌==◌, has_prefix}
use golang_base.Base.Paths.{
  push_byte, split_on, join_slash, rev_onto, Cleaned, go_up, clean_part, clean_parts, nothing_yet,
  dot_dots, render, is_abs, clean,
}

abbrev pub has_byte : ℕ → Text → Bool
has_byte c [] = false
has_byte c (x ∷ s) = eqb x c || has_byte c s

-- No slash in it.
abbrev pub IsFree : Text → Type 0
IsFree p = has_byte b'/' p ≡ false

-- An element that names something: no slash, not empty, not "." and not "..".
abbrev pub IsPart : Text → Type 0
IsPart p = IsFree p × ((p == [] || p == codes ".") ≡ false) × ((p == codes "..") ≡ false)

module _ (c : ℕ) where
  split-cons : (s : Text) → (p : Text) × (ps : List Text) × (split_on c s ≡ p ∷ ps)
  unfolding split_on push_byte
  split-cons [] = ([], [], refl)
  split-cons (x ∷ s) =
      let (p, ps, e) = split-cons s in
      elim (Bool-cases (eqb x c)) [
        | inl here ↦ ([], split_on c s, ground arith)
        | inr other ↦ (x ∷ p, ps, rw (other, split_on) (rw (e, push_byte) refl))
      ]

  pub split-append : (a b : Text) → split_on c (a ++ c ∷ b) ≡ split_on c a ++ split_on c b
  unfolding split_on push_byte
  split-append [] b = ground arith
  split-append (x ∷ a) b =
      let (p, ps, e) = split-cons a in
      elim (Bool-cases (eqb x c)) [
        | inl here ↦ rw (here, split_on) (ap (λ l. [] ∷ l) (split-append a b))
        | inr other ↦ rw (other, split_on) (rw (split-append a b) (rw (e, push_byte) refl))
      ]

  pub split_free : (p : Text) → has_byte c p ≡ false → split_on c p ≡ p ∷ []
  unfolding split_on push_byte
  split_free [] h = refl
  split_free (x ∷ p) h =
      let other : eqb x c ≡ false = ground arith in
      rw (other, split_on) (rw (split_free p (ground arith), push_byte) refl)

  All-push_byte :
      (x : ℕ) (ps : List Text)
      → eqb x c ≡ false
      → All (λ p. has_byte c p ≡ false) ps
      → All (λ p. has_byte c p ≡ false) (push_byte x ps)
  unfolding push_byte
  All-push_byte x [] other h = (ground arith, tt)
  All-push_byte x (p ∷ ps) other h = (ground (arith, h.0), h.1)

  split-All : (s : Text) → All (λ p. has_byte c p ≡ false) (split_on c s)
  unfolding split_on
  split-All [] = (refl, tt)
  split-All (x ∷ s) = elim (Bool-cases (eqb x c)) [
    | inl here ↦ rw (here, split_on) (refl, split-All s)
    | inr other ↦ rw (other, split_on) (All-push_byte x (split_on c s) other (split-All s))
  ]

pub split-join_slash :
    (p : Text) (ps : List Text) → All IsFree (p ∷ ps) → split_on b'/' (join_slash (p ∷ ps)) ≡ p ∷ ps
unfolding join_slash
split-join_slash p [] h = split_free b'/' p h.0
split-join_slash p (q ∷ ps) h =
    split-append b'/' p (join_slash (q ∷ ps))
    ∙ (rw (split_free b'/' p h.0) (ap (λ l. p ∷ l) (split-join_slash q ps h.1)))

All-rev_onto : (xs acc : List Text) → All IsPart xs → All IsPart acc → All IsPart (rev_onto xs acc)
unfolding rev_onto
All-rev_onto [] acc h k = k
All-rev_onto (x ∷ xs) acc h k = All-rev_onto xs (x ∷ acc) h.1 (h.0, k)

pub rev_onto-rev_onto :
    (ps st acc : List Text) → rev_onto (rev_onto ps st) acc ≡ rev_onto st (ps ++ acc)
unfolding rev_onto
rev_onto-rev_onto [] st acc = refl
rev_onto-rev_onto (p ∷ ps) st acc = rev_onto-rev_onto ps (p ∷ st) acc

module _ (rooted : Bool) where
  pub clean_parts-append :
      (c : Cleaned) (xs ys : List Text)
      → clean_parts rooted c (xs ++ ys) ≡ clean_parts rooted (clean_parts rooted c xs) ys
  unfolding clean_parts
  clean_parts-append c [] ys = refl
  clean_parts-append c (x ∷ xs) ys = clean_parts-append (clean_part rooted c x) xs ys

  clean_part-IsPart :
      (c : Cleaned) (p : Text)
      → IsPart p
      → clean_part rooted c p ≡ record { ups = c.ups; stack = p ∷ c.stack }
  unfolding clean_part
  clean_part-IsPart c p h = rw (h.1, clean_part) (rw h.2 refl)

  pub clean_parts-push :
      (c : Cleaned) (ps : List Text)
      → All IsPart ps
      → clean_parts rooted c ps ≡ record { ups = c.ups; stack = rev_onto ps c.stack }
  unfolding clean_parts rev_onto
  clean_parts-push c [] h = refl
  clean_parts-push c (p ∷ ps) h =
      rw (clean_part-IsPart c p h.0)
        (clean_parts-push (record { ups = c.ups; stack = p ∷ c.stack }) ps h.1)

  go_up-All :
      (ups : ℕ) (stack : List Text)
      → All IsPart stack
      → All IsPart (go_up rooted (record { ups = ups; stack = stack })).stack
  unfolding go_up
  go_up-All ups [] h = ground arith
  go_up-All ups (x ∷ stack) h = h.1

  clean_part-All :
      (c : Cleaned) (p : Text)
      → IsFree p
      → All IsPart c.stack
      → All IsPart (clean_part rooted c p).stack
  unfolding clean_part
  clean_part-All c p free h = elim (Bool-cases (p == [] || p == codes ".")) [
    | inl skipped ↦ rw (skipped, clean_part) h
    | inr kept ↦ elim (Bool-cases (p == codes "..")) [
      | inl up ↦ rw (kept, clean_part) (rw up (go_up-All c.ups c.stack h))
      | inr name ↦ rw (clean_part-IsPart c p (free, kept, name)) ((free, kept, name), h)
    ]
  ]

  clean_parts-All :
      (c : Cleaned) (ps : List Text)
      → All IsFree ps
      → All IsPart c.stack
      → All IsPart (clean_parts rooted c ps).stack
  unfolding clean_parts
  clean_parts-All c [] free h = h
  clean_parts-All c (p ∷ ps) free h =
      clean_parts-All (clean_part rooted c p) ps free.1 (clean_part-All c p free.0 h)

-- A rooted path has no ".." in front.
clean_part-ups : (c : Cleaned) (p : Text) → c.ups ≡ 0 → (clean_part true c p).ups ≡ 0
unfolding clean_part go_up
clean_part-ups c p h = ground arith

clean_parts-ups : (c : Cleaned) (ps : List Text) → c.ups ≡ 0 → (clean_parts true c ps).ups ≡ 0
unfolding clean_parts
clean_parts-ups c [] h = h
clean_parts-ups c (p ∷ ps) h = clean_parts-ups (clean_part true c p) ps (clean_part-ups c p h)

-- The elements of a cleaned path.
clean_stack-All :
    (s : Text)
    → All IsPart (rev_onto (clean_parts (is_abs s) nothing_yet (split_on b'/' s)).stack [])
clean_stack-All s =
    All-rev_onto (clean_parts (is_abs s) nothing_yet (split_on b'/' s)).stack []
      (clean_parts-All (is_abs s) nothing_yet (split_on b'/' s) (split-All b'/' s) tt) tt

pub clean_abs :
    (s : Text)
    → is_abs s ≡ true
    → (ps : List Text) × All IsPart ps × (clean s ≡ b'/' ∷ join_slash ps)
unfolding clean render dot_dots
clean_abs s h =
    let ps = rev_onto (clean_parts (is_abs s) nothing_yet (split_on b'/' s)).stack [] in
    let none_up : (clean_parts (is_abs s) nothing_yet (split_on b'/' s)).ups ≡ 0 =
      rw h (clean_parts-ups nothing_yet (split_on b'/' s) refl) in
    (ps, clean_stack-All s, rw (none_up, clean) (rw h refl))

abs_slash : (t u : Text) → t ≡ b'/' ∷ u → is_abs t ≡ true
unfolding is_abs
abs_slash t u e = rw e refl

climbs :
    (rest : List Text)
    → ((render false (codes ".." ∷ rest) == codes "..") ≡ true)
      ⊎ (has_prefix (render false (codes ".." ∷ rest)) (codes "../") ≡ true)
unfolding render join_slash has_prefix ◌==◌
climbs [] = inl refl
climbs (y ∷ ys) = inr refl

zero-cases : (n : ℕ) → (n ≡ 0) ⊎ ((k : ℕ) × (n ≡ suc k))
zero-cases zero = inl refl
zero-cases (suc k) = inr (k, refl)

-- A clean path that is neither absolute nor begins with "..": only names.
pub clean_inside :
    (s : Text)
    → is_abs (clean s) ≡ false
    → (clean s == codes "..") ≡ false
    → has_prefix (clean s) (codes "../") ≡ false
    → (ps : List Text) × All IsPart ps × (clean s ≡ render false ps)
unfolding clean dot_dots
clean_inside s a b c = elim (Bool-cases (is_abs s)) [
  | inl rooted ↦
      let (ps, parts, e) = clean_abs s rooted in
      absurd (ground (arith, abs_slash (clean s) (join_slash ps) e))
  | inr relative ↦
      let ps = rev_onto (clean_parts (is_abs s) nothing_yet (split_on b'/' s)).stack [] in
      elim (zero-cases (clean_parts (is_abs s) nothing_yet (split_on b'/' s)).ups) [
        | inl none_up ↦ (ps, clean_stack-All s, rw (none_up, clean) (rw relative refl))
        | inr (k, some_up) ↦
            let e : clean s ≡ render false (codes ".." ∷ dot_dots k ps) =
              rw (some_up, clean) (rw relative refl) in
            absurd (elim (climbs (dot_dots k ps)) [
              | inl up ↦ ground (arith, ap (λ t. t == codes "..") e)
              | inr up ↦ ground (arith, ap (λ t. has_prefix t (codes "../")) e)
            ])
      ]
]
