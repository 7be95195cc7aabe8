-- ===== src/Migrate/Create.antt =====
-- cmd/migrate/main.go: the command that makes the two files of a new migration, and the search for
-- the migrations directory. A wrapped error is the error that it wraps. `lower` is
-- strings.ToLower, `now` the formatted clock.
pub mod Placed
pub mod Fresh
pub mod Ordered
use golang_base.Base.{
  ℕ, suc, ◌+◌, Bool, true, false, not, ◌&&◌, ◌||◌, Option, none, some, List, [], ◌∷◌, ◌++◌, Text,
  codes, map, cut_suffix, length, ltb, eqb, ℤ, pos, negsuc, wrap_int64, if◌then◌else◌,
}
use golang_base.Base.Decimal.{is_digit, scan_int, format_03d}
use golang_base.Base.Paths.{join_path, clean}
use golang_base.Base.Space.{trim_space}
use golang_base.Domain.Errors.{Error, message, Result, ok, err}
use golang_base.Infra.{Write}
use golang_base.Infra.Monad.{◌>>=◌, ◌>>◌, give}
use golang_base.Migrate.{Entry}

-- Package os: the working directory, whether Stat finds a directory, and the changes.
pub record Disk (F : Type 0) : Type 0 where
  pub getwd : F → Result Text
  pub is_directory : Text → F → Bool
  pub mkdir_all : Text → Write F
  pub read_dir : Text → F → Result (List Entry)
  pub write_file : Text → Text → Write F

-- The text before the first occurrence of a byte, if there is one: the first of the two parts of
-- `strings.SplitN(s, c, 2)`.
unfoldable pub before_byte : ℕ → Text → Option Text
before_byte c [] = none
before_byte c (x ∷ s) =
    if eqb x c
    then some []
    else elim (before_byte c s) [ none ↦ none | some before ↦ some (x ∷ before) ]

abbrev pub has_suffix : Text → Text → Bool
has_suffix s suffix = elim (cut_suffix s suffix) [ none ↦ false | some before ↦ true ]

unfoldable pub is_up_file : Text → Bool
is_up_file filename = has_suffix filename (codes ".up.sql") || has_suffix filename (codes "_up.sql")

-- The number in front of a file's name.
unfoldable pub sequence_of : Text → Option ℤ
unfolding before_byte
sequence_of filename = elim (before_byte b'_' filename) [ none ↦ none | some part ↦ scan_int part ]

-- `if seq > maxSeq { maxSeq = seq }` from a maximum that is not negative.
unfoldable pub higher : ℕ → Option ℤ → ℕ
higher max_seq (some (pos seq)) = if ltb max_seq seq then seq else max_seq
higher max_seq (some (negsuc n)) = max_seq
higher max_seq none = max_seq

-- One entry of the directory.
unfoldable pub raised : ℕ → Entry → ℕ
raised max_seq entry =
    if not entry.is_dir && is_up_file entry.name
    then higher max_seq (sequence_of entry.name)
    else max_seq

unfoldable pub max_sequence : ℕ → List Entry → ℕ
max_sequence max_seq [] = max_seq
max_sequence max_seq (entry ∷ entries) = max_sequence (raised max_seq entry) entries

-- The regular expression `^\d{3,}_`, after `n` digits.
unfoldable pub numbered_after : ℕ → Text → Bool
numbered_after n [] = false
numbered_after n (c ∷ cs) =
    let later = numbered_after (suc n) cs in if is_digit c then later else eqb c b'_' && ltb 2 n

-- `strings.ReplaceAll(s, a, "_")` for one byte.
abbrev underscored : ℕ → ℕ → ℕ
underscored a c = if eqb c a then b'_' else c

unfoldable pub normalized : (Text → Text) → Text → Text
normalized lower name = lower (map (underscored b'-') (map (underscored b' ') (trim_space name)))

module _ {F : Type 0} (disk : Disk F) where
  unfoldable pub get_migrations_dir : F → Result Text
  get_migrations_dir f = elim (disk.getwd f) [
    | err e ↦ err e
    | ok cwd ↦
        let dir = join_path cwd (codes "migrations") in
        let parent_dir = join_path cwd (codes "../migrations") in
        if disk.is_directory dir f
        then ok dir
        else if disk.is_directory parent_dir f
        then ok (clean parent_dir)
        else ok dir
  ]

  unfoldable pub get_next_migration_sequence : Text → F → ℤ
  get_next_migration_sequence dir f = elim (disk.read_dir dir f) [
    | err e ↦ pos 1
    | ok entries ↦ wrap_int64 (max_sequence 0 entries + 1)
  ]

  -- The name without the suffixes: the user's number, or the next one.
  unfoldable pub migration_name_for : Text → Text → F → Text
  migration_name_for dir name f =
      if numbered_after 0 name
      then name
      else format_03d (get_next_migration_sequence dir f) ++ b'_' ∷ name

  unfoldable pub write_migration : Text → Text → Text → Write F
  write_migration now dir name =
      disk.write_file (join_path dir (name ++ codes ".up.sql"))
        (codes "-- Migration: " ++ (name ++ (codes "\n-- Created: " ++ (now ++ codes "\n\n"))))
      >> disk.write_file (join_path dir (name ++ codes ".down.sql"))
          (codes "-- Rollback: " ++ (name ++ (codes "\n-- Created: " ++ (now ++ codes "\n\n"))))

  unfoldable pub create_migration_file : (Text → Text) → Text → Text → Write F
  create_migration_file lower now name f = elim (trim_space name) [
    | [] ↦ (err (message (codes "migration name is required")), f)
    | c ∷ cs ↦ elim (get_migrations_dir f) [
      | err e ↦ (err e, f)
      | ok dir ↦
          let (made, f') = disk.mkdir_all dir f in
          elim made [
            | err e ↦ (err e, f')
            | ok u ↦ write_migration now dir (migration_name_for dir (normalized lower name) f') f'
          ]
    ]
  ]
