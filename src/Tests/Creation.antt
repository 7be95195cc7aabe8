-- ===== src/Tests/Creation.antt =====
-- The theorems on new migrations, on a disk that lists its files and remembers what was written.
use golang_base.Base.{
  false, true, ◌≢◌, List, [], ◌∷◌, ◌++◌, Text, codes, Dict, insert, cut_suffix, ◌==◌, text_le, ◌≡◌,
  refl, arith,
}
use golang_base.Base.Decimal.{
  atoi, digits, digit_run, number_token, scan_int, emit, format_decimal, zeros, pad_zeros,
  format_03d,
}
use golang_base.Base.Paths
use golang_base.Base.Paths.{join_slash}
use golang_base.Base.Space.{trim_space, trim_front, trim_back}
use golang_base.Domain.Errors.{ok}
use golang_base.Migrate.{Entry}
use golang_base.Migrate.Create.{
  Disk, before_byte, is_up_file, sequence_of, higher, raised, max_sequence, numbered_after,
  normalized, get_migrations_dir, get_next_migration_sequence, migration_name_for, write_migration,
  create_migration_file,
}
use golang_base.Migrate.Create.Placed.{write_inside}
use golang_base.Migrate.Create.Fresh.{create_migration_file-fresh}
use golang_base.Migrate.Create.Ordered.{create_migration_file-text_le}

abbrev up_file : Text → Entry
up_file name = record { name = name; is_dir = false }

abbrev first_file : Entry
first_file = up_file (codes "001_users.up.sql")

abbrev later_files : List Entry
later_files = up_file (codes "001_users.down.sql") ∷ up_file (codes "009_logs_up.sql") ∷ []

abbrev disk : Disk (Dict Text)
disk = record {
  getwd = λ f. ok (codes "/srv");
  is_directory = λ d f. d == codes "/srv/migrations";
  mkdir_all = λ d f. (ok tt, f);
  read_dir = λ d f. ok (first_file ∷ later_files);
  write_file = λ path content f. (ok tt, insert path content f);
}

-- What the runs compute with.
unfoldable names : Unit {0}
unfolding Paths.push_byte Paths.split_on Paths.join_slash Paths.rev_onto Paths.go_up
    Paths.clean_part Paths.clean_parts Paths.dot_dots Paths.render Paths.is_abs Paths.clean
    Paths.join_path trim_space trim_front trim_back atoi digits digit_run number_token scan_int emit
    format_decimal zeros pad_zeros format_03d before_byte is_up_file sequence_of higher raised
    max_sequence numbered_after normalized get_migrations_dir get_next_migration_sequence
    migration_name_for write_migration create_migration_file cut_suffix ◌==◌ insert text_le
names = tt

created_files :
    (create_migration_file disk (λ s. s) (codes "now") (codes " add-tags ") []).1
    ≡ (
      codes "/srv/migrations/010_add_tags.up.sql",
      codes "-- Migration: 010_add_tags\n-- Created: now\n\n",
    )
      ∷ (
        codes "/srv/migrations/010_add_tags.down.sql",
        codes "-- Rollback: 010_add_tags\n-- Created: now\n\n",
      )
      ∷ []
unfolding names
created_files = refl

-- A slash in the name leads out of the directory, or to a file that is there.
escaping_files :
    (create_migration_file disk (λ s. s) (codes "now") (codes "a/../001_users") []).1
    ≡ (
      codes "/srv/migrations/001_users.up.sql",
      codes "-- Migration: 010_a/../001_users\n-- Created: now\n\n",
    )
      ∷ (
        codes "/srv/migrations/001_users.down.sql",
        codes "-- Rollback: 010_a/../001_users\n-- Created: now\n\n",
      )
      ∷ []
unfolding names
escaping_files = refl

-- A number of the user's own is kept, and the file of that name written again.
numbered :
    migration_name_for disk (codes "/srv/migrations") (codes "001_users") [] ≡ codes "001_users"
unfolding names
numbered = refl

create_migration_file-fresh_example :
    (bs : List Text) × (up : Text) × (down : Text) × (file : Text) × (codes "/srv/migrations"
      ≡ b'/' ∷ join_slash bs)
    × (create_migration_file disk (λ s. s) (codes "now") (codes "tags") []
        ≡ write_inside disk bs file up down [])
    × (codes "001_users.up.sql" ≢ file ++ codes ".up.sql")
unfolding names
create_migration_file-fresh_example =
    create_migration_file-fresh disk (λ s. s) (codes "now") (codes "/srv/migrations") (codes "tags")
      b't' (codes "ags") (codes "/srv") [] [] later_files first_file refl refl refl refl refl refl
      refl refl (omega arith) refl

create_migration_file-text_le_example :
    (bs : List Text) × (up : Text) × (down : Text) × (file : Text) × (codes "/srv/migrations"
      ≡ b'/' ∷ join_slash bs)
    × (create_migration_file disk (λ s. s) (codes "now") (codes "tags") []
        ≡ write_inside disk bs file up down [])
    × (text_le (codes "001_users.up.sql") (file ++ codes ".up.sql") ≡ true)
    × (text_le (file ++ codes ".up.sql") (codes "001_users.up.sql") ≡ false)
unfolding names
create_migration_file-text_le_example =
    create_migration_file-text_le disk (λ s. s) (codes "now") (codes "/srv/migrations")
      (codes "tags") b't' (codes "ags") (codes "/srv") [] [] later_files first_file refl refl refl
      refl refl refl refl refl (omega arith) refl refl
      (record {
        a = b'0';
        b = b'0';
        c = b'1';
        rest = codes "users.up.sql";
        splits = refl;
        digit_a = refl;
        digit_b = refl;
        digit_c = refl;
      })
