-- ===== src/Tests/Migrations.antt =====
-- The theorems on migrations at a directory of three files, one of them blank.
use golang_base.Base.{
  false, ◌||◌, List, [], ◌∷◌, Text, codes, ◌==◌, lookup, Dict, any, cut_suffix, sort_strings,
  insert_sorted, text_le, ◌≡◌, refl,
}
use golang_base.Migrate.{
  Entry, Host, migration_name, up_files, read_migrations, apply_files, run_files, run_migrations,
}
use golang_base.Migrate.Runs.{LeaveTable, carries}
use golang_base.Migrate.Twice.{made_table, run_migrations-applied, run_migrations-again}
use golang_base.Tests.Memory.Migrations.{
  Table, count_rows, highest, next_id, has_row, list_host, list_host_laws,
}

abbrev entries : List Entry
entries =
    record { name = codes "2_roles.up.sql"; is_dir = false }
    ∷ record { name = codes "1_users.up.sql"; is_dir = false }
    ∷ record { name = codes "1_users.down.sql"; is_dir = false }
    ∷ record { name = codes "3_blank.up.sql"; is_dir = false }
    ∷ []

abbrev contents : Dict Text
contents =
    (codes "1_users.up.sql", codes "CREATE TABLE users")
    ∷ (codes "2_roles.up.sql", codes "CREATE TABLE roles")
    ∷ (codes "3_blank.up.sql", [])
    ∷ []

abbrev host : Host Table
host = list_host entries contents

-- `1_users` has been applied before.
abbrev table : Table
table = record { id = 1; name = codes "1_users"; batch = 1; applied_at = [] } ∷ []

leave : LeaveTable host (list_host_laws entries contents) (codes "migrations") (up_files entries)
unfolding list_host_laws
leave file content among read s n done = refl

run_migrations-applied_example : has_row (run_migrations host table).1 (codes "2_roles") ≡ (
    has_row table (codes "2_roles")
    || any (carries host (codes "migrations") (codes "2_roles")) (up_files entries))
unfolding run_migrations run_files apply_files read_migrations up_files migration_name cut_suffix
    ◌==◌ lookup sort_strings insert_sorted text_le count_rows highest next_id list_host_laws
run_migrations-applied_example =
    run_migrations-applied host (list_host_laws entries contents) (codes "migrations")
      (codes "2_roles") entries table refl leave refl refl

run_migrations-again_example :
    (run_migrations host (run_migrations host table).1).1
    ≡ made_table host (sort_strings (up_files entries)) (run_migrations host table).1
unfolding run_migrations run_files apply_files read_migrations up_files migration_name cut_suffix
    ◌==◌ lookup sort_strings insert_sorted text_le count_rows highest next_id list_host_laws
run_migrations-again_example =
    run_migrations-again host (list_host_laws entries contents) (codes "migrations") entries table
      refl leave refl refl
