-- ===== src/Migrate/Create/Placed.antt =====
-- cmd/migrate/main.go: where the files of a new migration are written.
use golang_base.Base.{
  ℕ, ◌≤◌, true, false, ◌||◌, List, [], ◌∷◌, ◌++◌, Text, codes, ◌==◌, length, All, pos, ◌≡◌, refl,
  ◌∙◌, arith, inl, inr, Bool-cases,
}
use mathlib.Core.List.{append_assoc}
use golang_base.Base.Decimal.{format_03d}
use golang_base.Base.Decimal.RoundTrip.{IsNumber, format_03d-IsNumber, format_03d-length}
use golang_base.Base.Paths.{is_abs, clean, join_path, join_slash, render}
use golang_base.Base.Paths.Parts.{has_byte, IsFree, IsPart, clean_abs}
use golang_base.Base.Paths.Joined.{join_path_lem}
use golang_base.Domain.Errors.{ok}
use golang_base.Infra.{Write}
use golang_base.Infra.Monad.{◌>>◌}
use golang_base.Migrate.Create.{Disk, get_migrations_dir, write_migration}

-- The path of a name in the directory with these elements.
abbrev pub inside : List Text → Text → Text
inside bs name = b'/' ∷ join_slash (bs ++ name ∷ [])

has_byte-append : (c : ℕ) (a b : Text) → has_byte c (a ++ b) ≡ (has_byte c a || has_byte c b)
has_byte-append c [] b = refl
has_byte-append c (x ∷ a) b = ground (arith, has_byte-append c a b)

number-IsFree : (t : Text) → IsNumber t → IsFree t
number-IsFree [] h = refl
number-IsFree (c ∷ t) h = ground (arith, number-IsFree t h.1, h.0)

number-IsPart :
    (t rest : Text) → IsNumber t → 3 ≤ length t → has_byte b'/' rest ≡ false → IsPart (t ++ rest)
unfolding ◌==◌
number-IsPart [] rest h long free = absurd (omega (arith, long))
number-IsPart (c ∷ t) rest h long free = (
  has_byte-append b'/' (c ∷ t) rest ∙ ground (arith, number-IsFree (c ∷ t) h, free),
  ground (arith, h.0),
  ground (arith, h.0),
)

-- A numbered name with a suffix names a file.
pub numbered-IsPart :
    (n : ℕ) (name suffix : Text)
    → has_byte b'/' name ≡ false
    → has_byte b'/' suffix ≡ false
    → IsPart ((format_03d (pos n) ++ b'_' ∷ name) ++ suffix)
numbered-IsPart n name suffix free ending =
    rw (append_assoc (format_03d (pos n)) (b'_' ∷ name) suffix) (
      number-IsPart (format_03d (pos n)) (b'_' ∷ (name ++ suffix)) (format_03d-IsNumber n)
        (format_03d-length n) (ground (arith, has_byte-append b'/' name suffix, free, ending)))

joined_abs :
    (a : Text) (y : ℕ) (b : Text)
    → is_abs a ≡ true
    → (bs : List Text) × All IsPart bs × (join_path a (y ∷ b) ≡ b'/' ∷ join_slash bs)
unfolding join_path is_abs
joined_abs [] y b h = cc
joined_abs (x ∷ a) y b h = clean_abs ((x ∷ a) ++ b'/' ∷ y ∷ b) h

cleaned :
    (a : Text) (bs : List Text)
    → a ≡ b'/' ∷ join_slash bs
    → (cs : List Text) × All IsPart cs × (clean a ≡ b'/' ∷ join_slash cs)
unfolding is_abs
cleaned a bs e = clean_abs a (rw e refl)

join_path-name :
    (bs : List Text) (name : Text)
    → All IsPart bs
    → IsPart name
    → join_path (b'/' ∷ join_slash bs) name ≡ inside bs name
unfolding render join_slash
join_path-name bs name base h = join_path_lem bs (name ∷ []) base (h, tt)

module _ {F : Type 0} (disk : Disk F) where
  -- In an absolute working directory the migrations directory is a clean absolute path.
  pub get_migrations_dir-parts :
      (cwd dir : Text) (f : F)
      → disk.getwd f ≡ ok cwd
      → is_abs cwd ≡ true
      → get_migrations_dir disk f ≡ ok dir
      → (bs : List Text) × All IsPart bs × (dir ≡ b'/' ∷ join_slash bs)
  unfolding get_migrations_dir
  get_migrations_dir-parts cwd dir f at rooted found =
      let (bs, parts, e) = joined_abs cwd b'm' (codes "igrations") rooted in
      let (us, ups, u) = joined_abs cwd b'.' (codes "./migrations") rooted in
      let (cs, cleans, c) = cleaned (join_path cwd (codes "../migrations")) us u in
      elim (Bool-cases (disk.is_directory (join_path cwd (codes "migrations")) f)) [
        | inl here ↦ (bs, parts, ground (arith, e))
        | inr none_here ↦
            elim (Bool-cases (disk.is_directory (join_path cwd (codes "../migrations")) f)) [
              | inl above ↦ (cs, cleans, ground (arith, c))
              | inr nowhere ↦ (bs, parts, ground (arith, e))
            ]
      ]

  -- The write of these two texts to the two files of one name in this directory.
  abbrev pub write_inside : List Text → Text → Text → Text → Write F
  write_inside bs file up down =
      disk.write_file (inside bs (file ++ codes ".up.sql")) up
      >> disk.write_file (inside bs (file ++ codes ".down.sql")) down

  pub write_migration-inside :
      (now dir name : Text) (n : ℕ) (bs : List Text)
      → All IsPart bs
      → dir ≡ b'/' ∷ join_slash bs
      → has_byte b'/' name ≡ false
      → let file = format_03d (pos n) ++ b'_' ∷ name in
        write_migration disk now dir file
        ≡ write_inside bs file
            (codes "-- Migration: " ++ (file ++ (codes "\n-- Created: " ++ (now ++ codes "\n\n"))))
            (codes "-- Rollback: " ++ (file ++ (codes "\n-- Created: " ++ (now ++ codes "\n\n"))))
  unfolding write_migration
  write_migration-inside now dir name n bs parts e free =
      let upward = numbered-IsPart n name (codes ".up.sql") free refl in
      let downward = numbered-IsPart n name (codes ".down.sql") free refl in
      rw e (rw (join_path-name bs _ parts upward) (rw (join_path-name bs _ parts downward) refl))
