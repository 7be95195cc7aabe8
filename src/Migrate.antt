-- ===== src/Migrate.antt =====
-- cmd/migrate/main.go: the runs and rollbacks of the SQL migrations. The files do not change during
-- a run; a wrapped error is the error that it wraps, and what is printed is left out. The entries
-- stand for their paths: all have the migrations directory in front, which changes no order.
pub mod Runs
pub mod Twice
pub mod Create
use golang_base.Base.{
  ℕ, zero, suc, ◌+◌, Bool, true, false, not, ◌&&◌, Option, none, some, List, [], ◌∷◌, ◌++◌, Text,
  codes, ◌==◌, Dict, lookup, insert, length, cut_suffix, has_prefix, sort_strings, if◌then◌else◌,
}
use golang_base.Domain.Errors.{Error, Result, ok, err}
use golang_base.Infra.Monad.{Act, ◌>>=◌, ◌>>◌, ignore, skip}

-- What os.ReadDir lists.
pub record Entry : Type 0 where
  pub name : Text
  pub is_dir : Bool

-- A row of the migrations table, as rollback and list read it.
pub record MigrationRow : Type 0 where
  pub id : ℕ
  pub name : Text
  pub batch : ℕ
  pub applied_at : Text

-- The directory, the files, and the statements on the migrations table; `exec` runs any SQL text.
-- `error_text` is the method Error, `trim_space` is strings.TrimSpace.
pub record Host (S : Type 0) : Type 0 where
  pub get_migrations_dir : Result Text
  pub read_dir : Text → Result (List Entry)
  pub read_file : Text → Text → Result Text
  pub trim_space : Text → Text
  pub error_text : Error → Text
  pub exec : Text → Act S (Unit {0})
  pub create_table : Act S (Unit {0})
  pub max_batch : S → Result ℕ
  pub count_name : Text → S → Result ℕ
  pub insert_migration : Text → ℕ → Act S (Unit {0})
  pub select_batch : ℕ → S → Result (List MigrationRow)
  pub select_migrations : S → Result (List MigrationRow)
  pub delete_migration : ℕ → Act S (Unit {0})

-- The line of one file in the list: its batch and instant, if it is applied.
pub record Status : Type 0 where
  pub file : Text
  pub applied : Option (ℕ × Text)

pub record Report : Type 0 where
  pub files : List Status
  pub total : ℕ
  pub applied : ℕ
  pub pending : ℕ

abbrev up_sql : Text
up_sql = codes ".up.sql"

-- `strings.TrimSuffix(file, ".up.sql")`
unfoldable pub migration_name : Text → Text
migration_name file = elim (cut_suffix file up_sql) [ none ↦ file | some name ↦ name ]

-- The loop over the directory.
unfoldable pub up_files : List Entry → List Text
up_files [] = []
up_files (entry ∷ entries) =
    let rest = up_files entries in
    elim (cut_suffix entry.name up_sql) [
      | none ↦ rest
      | some base ↦ if entry.is_dir then rest else entry.name ∷ rest
    ]

-- `strings.Contains(s, part)`
unfoldable pub contains_text : Text → Text → Bool
contains_text [] part = part == []
contains_text (c ∷ cs) part =
    let later = contains_text cs part in if has_prefix (c ∷ cs) part then true else later

-- The map `applied`: a later row of a name replaces an earlier one.
unfoldable pub applied_map : List MigrationRow → Dict (ℕ × Text) → Dict (ℕ × Text)
applied_map [] m = m
applied_map (row ∷ rows) m = applied_map rows (insert row.name (row.batch, row.applied_at) m)

unfoldable pub statuses : Dict (ℕ × Text) → List Text → List Status
statuses applied [] = []
statuses applied (file ∷ files) =
    record { file = file; applied = lookup (migration_name file) applied } ∷ statuses applied files

unfoldable pub pending_count : List Status → ℕ
pending_count [] = 0
pending_count (status ∷ rest) = elim status.applied [
  | some info ↦ pending_count rest
  | none ↦ suc (pending_count rest)
]

module _ {S : Type 0} (host : Host S) where
  -- The entries of the migrations directory, with the directory.
  unfoldable pub read_migrations : Result (Text × List Entry)
  read_migrations = elim host.get_migrations_dir [
    | err e ↦ err e
    | ok dir ↦ elim (host.read_dir dir) [ err e ↦ err e | ok entries ↦ ok (dir, entries) ]
  ]

  -- The loop of runMigrations: the error of the INSERT is dropped.
  unfoldable pub apply_files : Text → ℕ → List Text → Act S (Unit {0})
  apply_files dir batch [] s = (ok tt, s)
  apply_files dir batch (file ∷ files) s = elim (host.count_name (migration_name file) s) [
    | err e ↦ (err e, s)
    | ok (suc n) ↦ apply_files dir batch files s
    | ok zero ↦ elim (host.read_file dir file) [
      | err e ↦ (err e, s)
      | ok content ↦ elim (host.trim_space content) [
        | [] ↦ apply_files dir batch files s
        | c ∷ cs ↦
            let (r, s') = host.exec (c ∷ cs) s in
            elim r [
              | err e ↦ (err e, s')
              | ok done ↦
                  apply_files dir batch files
                    (host.insert_migration (migration_name file) batch s').1
            ]
      ]
    ]
  ]

  -- The steps after the files are known: an empty list ends the run before the table is made.
  unfoldable pub run_files : Text → List Text → Act S (Unit {0})
  run_files dir [] s = (ok tt, s)
  run_files dir (file ∷ files) s =
      let s' = (host.create_table s).1 in
      elim (host.max_batch s') [
        | err e ↦ (err e, s')
        | ok current ↦ apply_files dir (current + 1) (file ∷ files) s'
      ]

  unfoldable pub run_migrations : Act S (Unit {0})
  run_migrations s = elim read_migrations [
    | err e ↦ (err e, s)
    | ok (dir, entries) ↦ run_files dir (sort_strings (up_files entries)) s
  ]

  -- One migration of the rollback: a failure leaves its row and goes on.
  unfoldable pub rollback_one : Text → MigrationRow → S → S
  rollback_one dir m s = elim (host.read_file dir (m.name ++ codes ".down.sql")) [
    | err e ↦ s
    | ok content ↦
        let (r, s') = host.exec content s in
        elim r [
          | ok done ↦ (host.delete_migration m.id s').1
          | err e ↦
              if contains_text (host.error_text e) (codes "does not exist")
              then (host.delete_migration m.id s').1
              else s'
        ]
  ]

  unfoldable pub rollback_all : Text → List MigrationRow → S → S
  rollback_all dir [] s = s
  rollback_all dir (m ∷ migrations) s = rollback_all dir migrations (rollback_one dir m s)

  unfoldable pub rollback_migration : Act S (Unit {0})
  rollback_migration s = elim (host.max_batch s) [
    | err e ↦ (err e, s)
    | ok zero ↦ (ok tt, s)
    | ok (suc b) ↦ elim (host.select_batch (suc b) s) [
      | err e ↦ (err e, s)
      | ok [] ↦ (ok tt, s)
      | ok (m ∷ migrations) ↦ elim host.get_migrations_dir [
        | err e ↦ (err e, s)
        | ok dir ↦ (ok tt, rollback_all dir (m ∷ migrations) s)
      ]
    ]
  ]

  unfoldable pub list_migrations : Act S Report
  list_migrations s = elim read_migrations [
    | err e ↦ (err e, s)
    | ok (dir, entries) ↦
        let files = sort_strings (up_files entries) in
        let s' = (host.create_table s).1 in
        elim (host.select_migrations s') [
          | err e ↦ (err e, s')
          | ok rows ↦
              let applied = applied_map rows [] in
              let lines = statuses applied files in
              (
                ok (record {
                  files = lines;
                  total = length files;
                  applied = length applied;
                  pending = pending_count lines;
                }),
                s',
              )
        ]
  ]

  unfoldable pub fresh_migration : Act S (Unit {0})
  fresh_migration =
      host.exec (codes "DROP SCHEMA public CASCADE")
      >> host.exec (codes "CREATE SCHEMA public")
      >> run_migrations
