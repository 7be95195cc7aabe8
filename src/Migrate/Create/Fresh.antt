-- ===== src/Migrate/Create/Fresh.antt =====
-- cmd/migrate/main.go: the number of a new migration.
use mathlib.Core.List.{append_assoc}
use golang_base.Base.{
  ℕ, ◌+◌, ◌≤◌, ◌<◌, true, false, Option, none, some, List, [], ◌∷◌, ◌++◌, Text, codes,
  cut_suffix_append, All, ℤ, pos, negsuc, max_int64, ◌≡◌, ◌≢◌, refl, ap, ◌∙◌, arith,
}
use golang_base.Base.Decimal.{format_03d}
use golang_base.Base.Decimal.RoundTrip.{IsNumber, format_03d-IsNumber, scan_int-format_03d}
use golang_base.Base.Paths.{is_abs, join_slash}
use golang_base.Base.Paths.Parts.{has_byte}
use golang_base.Base.Space.{trim_space}
use golang_base.Domain.Errors.{ok}
use golang_base.Migrate.{Entry}
use golang_base.Migrate.Create.Placed.{
  write_inside, get_migrations_dir-parts, write_migration-inside,
}
use golang_base.Migrate.Create.{
  Disk, get_migrations_dir, get_next_migration_sequence, numbered_after, normalized,
  migration_name_for, write_migration, create_migration_file, before_byte, is_up_file, sequence_of,
  higher, raised, max_sequence,
}

before-IsNumber : (t rest : Text) → IsNumber t → before_byte b'_' (t ++ b'_' ∷ rest) ≡ some t
unfolding before_byte
before-IsNumber [] rest h = refl
before-IsNumber (c ∷ t) rest h = ground (arith, before-IsNumber t rest h.1, h.0)

-- A file with a printed number in front has that number.
pub sequence_of-format_03d :
    (n : ℕ) (rest : Text)
    → n ≤ max_int64
    → sequence_of (format_03d (pos n) ++ b'_' ∷ rest) ≡ some (pos n)
unfolding sequence_of
sequence_of-format_03d n rest h =
    rw (before-IsNumber (format_03d (pos n)) rest (format_03d-IsNumber n), sequence_of)
      (scan_int-format_03d n h)

le-higher : (m : ℕ) (s : Option ℤ) → m ≤ higher m s
unfolding higher
le-higher m none = omega arith
le-higher m (some (pos n)) = ground arith
le-higher m (some (negsuc n)) = omega arith

le-raised : (m : ℕ) (entry : Entry) → m ≤ raised m entry
unfolding raised
le-raised m entry = ground (arith, le-higher m (sequence_of entry.name))

le-max_sequence : (m : ℕ) (entries : List Entry) → m ≤ max_sequence m entries
unfolding max_sequence
le-max_sequence m [] = omega arith
le-max_sequence m (entry ∷ entries) =
    omega (arith, le-raised m entry, le-max_sequence (raised m entry) entries)

-- A file of an upward migration has no number above `k`.
abbrev pub IsBelow : ℕ → Entry → Type 0
IsBelow k entry =
    (n : ℕ)
    → entry.is_dir ≡ false
    → is_up_file entry.name ≡ true
    → sequence_of entry.name ≡ some (pos n)
    → n ≤ k

raised-bound : (m : ℕ) (entry : Entry) → IsBelow (raised m entry) entry
unfolding raised higher
raised-bound m entry n file up numbered = ground (arith, file, up, numbered)

IsBelow-le : (k l : ℕ) (entry : Entry) → k ≤ l → IsBelow k entry → IsBelow l entry
IsBelow-le k l entry le below n file up numbered = omega (arith, below n file up numbered)

pub max_sequence-IsBelow :
    (m : ℕ) (entries : List Entry) → All (IsBelow (max_sequence m entries)) entries
unfolding max_sequence
max_sequence-IsBelow m [] = tt
max_sequence-IsBelow m (entry ∷ entries) = (
  IsBelow-le (raised m entry) (max_sequence (raised m entry) entries) entry
      (le-max_sequence (raised m entry) entries) (raised-bound m entry),
  max_sequence-IsBelow (raised m entry) entries,
)

IsBelow-at :
    (k : ℕ) (before after : List Entry) (entry : Entry)
    → All (IsBelow k) (before ++ entry ∷ after)
    → IsBelow k entry
IsBelow-at k [] after entry h = h.0
IsBelow-at k (x ∷ before) after entry h = IsBelow-at k before after entry h.1

up_file-append : (file : Text) → is_up_file (file ++ codes ".up.sql") ≡ true
unfolding is_up_file
up_file-append file = ground (arith, cut_suffix_append file (codes ".up.sql"))

module _ {F : Type 0} (disk : Disk F) (lower : Text → Text) (now dir name : Text) (c : ℕ)
    (cs cwd : Text) (f : F) (before after : List Entry) (entry : Entry)
    (given : trim_space name ≡ c ∷ cs) (at : disk.getwd f ≡ ok cwd) (rooted : is_abs cwd ≡ true)
    (found : get_migrations_dir disk f ≡ ok dir) (made : (disk.mkdir_all dir f).0 ≡ ok tt)
    (listed : disk.read_dir dir (disk.mkdir_all dir f).1 ≡ ok (before ++ entry ∷ after))
    (plain : has_byte b'/' (normalized lower name) ≡ false)
    (unnumbered : numbered_after 0 (normalized lower name) ≡ false)
    (room : max_sequence 0 (before ++ entry ∷ after) < max_int64)
    (is_file : entry.is_dir ≡ false) where
  abbrev next_number : ℕ
  next_number = max_sequence 0 (before ++ entry ∷ after) + 1

  next_sequence : get_next_migration_sequence disk dir (disk.mkdir_all dir f).1 ≡ pos next_number
  unfolding get_next_migration_sequence
  next_sequence = ground (arith, listed, room)

  next_name :
      migration_name_for disk dir (normalized lower name) (disk.mkdir_all dir f).1
      ≡ format_03d (pos next_number) ++ b'_' ∷ normalized lower name
  unfolding migration_name_for
  next_name = rw (unnumbered, migration_name_for) (rw next_sequence)

  -- The command writes into the directory, under a number above that of every file there.
  pub create_migration_file-number :
      (bs : List Text) × (up : Text) × (down : Text) × (dir ≡ b'/' ∷ join_slash bs)
      × (create_migration_file disk lower now name f
          ≡ write_inside disk bs
              (format_03d (pos next_number) ++ b'_' ∷ normalized lower name)
              up
              down
              (disk.mkdir_all dir f).1)
      × IsBelow (max_sequence 0 (before ++ entry ∷ after)) entry
  unfolding create_migration_file
  create_migration_file-number =
      let (bs, parts, same) = get_migrations_dir-parts disk cwd dir f at rooted found in
      let step : create_migration_file disk lower now name f
          ≡ write_migration disk now dir
              (format_03d (pos next_number) ++ b'_' ∷ normalized lower name)
              (disk.mkdir_all dir f).1 =
        ground (arith, given, found, made, next_name) in
      (
        bs,
        _,
        _,
        same,
        step
            ∙ ap (λ m. m (disk.mkdir_all dir f).1)
                (write_migration-inside disk now dir (normalized lower name) next_number bs parts
                  same plain),
        IsBelow-at _ before after entry (max_sequence-IsBelow 0 (before ++ entry ∷ after)),
      )

  -- If a migration is created under a name that is not blank and, once normalized, has no slash and
  -- no number of its own, in an absolute working directory, and the migrations directory is found,
  -- made and listed and its highest number is below the largest int: the command writes two files
  -- of one name directly in the migrations directory, and the name of the upward file is that of no
  -- file that was there.
  pub create_migration_file-fresh :
      (bs : List Text) × (up : Text) × (down : Text) × (file : Text) × (dir ≡ b'/' ∷ join_slash bs)
      × (create_migration_file disk lower now name f
          ≡ write_inside disk bs file up down (disk.mkdir_all dir f).1)
      × (entry.name ≢ file ++ codes ".up.sql")
  create_migration_file-fresh =
      let rest = b'_' ∷ normalized lower name in
      let (bs, up, down, same_dir, written, below) = create_migration_file-number in
      (
        bs,
        up,
        down,
        format_03d (pos next_number) ++ rest,
        same_dir,
        written,
        λ same. absurd (
            omega (
              arith,
              below next_number is_file
                  (ap is_up_file same ∙ up_file-append (format_03d (pos next_number) ++ rest))
                  (ap sequence_of same
                    ∙ ap sequence_of
                        (append_assoc (format_03d (pos next_number)) rest (codes ".up.sql"))
                    ∙ sequence_of-format_03d next_number (normalized lower name ++ codes ".up.sql")
                        (omega arith)),
            )),
      )
