-- ===== src/Tests/Memory/Migrations.antt =====
-- A host whose migrations table is a list, newest row first, and whose files are a map.
use golang_base.Base.{
  ℕ, suc, Bool, none, some, List, [], ◌∷◌, Text, codes, ◌==◌, Dict, lookup, any, eqb, leb, ltb,
  if◌then◌else◌, ◌≡◌, refl, arith,
}
use golang_base.Domain.Errors.{not_found, ok, err}
use golang_base.Migrate.{Entry, MigrationRow, Host}
use golang_base.Migrate.Runs.{MigrationLaws}

abbrev pub Table : Type 0
Table = List MigrationRow

unfoldable pub count_rows : Text → Table → ℕ
count_rows n [] = 0
count_rows n (row ∷ rows) = let rest = count_rows n rows in if row.name == n then suc rest else rest

unfoldable pub highest : Table → ℕ
highest [] = 0
highest (row ∷ rows) = let rest = highest rows in if leb rest row.batch then row.batch else rest

unfoldable pub in_batch : ℕ → Table → Table
in_batch b [] = []
in_batch b (row ∷ rows) = let rest = in_batch b rows in if eqb row.batch b then row ∷ rest else rest

unfoldable pub without_id : ℕ → Table → Table
without_id id [] = []
without_id id (row ∷ rows) =
    let rest = without_id id rows in if eqb row.id id then rest else row ∷ rest

unfoldable pub next_id : Table → ℕ
next_id [] = 1
next_id (row ∷ rows) = suc row.id

abbrev pub has_row : Table → Text → Bool
has_row s n = any (λ row. row.name == n) s

-- The directory has these entries, the map has their contents; every SQL text runs.
abbrev pub list_host : List Entry → Dict Text → Host Table
list_host entries contents = record {
  get_migrations_dir = ok (codes "migrations");
  read_dir = λ dir. ok entries;
  read_file = λ dir file. elim (lookup file contents) [ none ↦ err not_found | some c ↦ ok c ];
  trim_space = λ s. s;
  error_text = λ e. [];
  exec = λ sql s. (ok tt, s);
  create_table = λ s. (ok tt, s);
  max_batch = λ s. ok (highest s);
  count_name = λ n s. ok (count_rows n s);
  insert_migration =
      λ n b s. (ok tt, record { id = next_id s; name = n; batch = b; applied_at = [] } ∷ s);
  select_batch = λ b s. ok (in_batch b s);
  select_migrations = λ s. ok s;
  delete_migration = λ id s. (ok tt, without_id id s);
}

count_rows_lem : (n : Text) (s : Table) → ltb 0 (count_rows n s) ≡ has_row s n
unfolding count_rows
count_rows_lem n [] = refl
count_rows_lem n (row ∷ rows) = ground (arith, count_rows_lem n rows)

pub counted-has_row :
    (n : Text) (s : Table) (k : ℕ) → ok (count_rows n s) ≡ ok k → ltb 0 k ≡ has_row s n
counted-has_row n s k e = ground (arith, count_rows_lem n s)

unfoldable pub list_host_laws :
    (entries : List Entry) (contents : Dict Text) → MigrationLaws (list_host entries contents)
list_host_laws entries contents = record {
  applied = has_row;
  count = counted-has_row;
  create_applied = λ s n. refl;
  insert_applied = λ name batch s n done. refl;
}
