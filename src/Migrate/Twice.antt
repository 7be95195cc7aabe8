-- ===== src/Migrate/Twice.antt =====
-- cmd/migrate/main.go: a run of the migrations, and the run after it.
use golang_base.Base.{
  ℕ, zero, suc, ◌+◌, Bool, true, false, not, ◌&&◌, ◌||◌, List, [], ◌∷◌, Text, ◌==◌, eq_refl, any,
  any_of_contains, contains_of_any, contains-sort_strings, any-sort_strings, sort_strings, ◌≡◌,
  refl, sym, ◌∙◌, arith, inl, inr, Bool-cases,
}
use golang_base.Domain.Errors.{ok, err, Result-cases}
use golang_base.Migrate.{
  Entry, Host, migration_name, up_files, read_migrations, apply_files, run_files, run_migrations,
}
use golang_base.Migrate.Runs.{
  LeaveTable, records_all, MigrationLaws, List-cases, has_content, carries, step_applied,
  step_uncounted, step_unread, step_blank, apply_files-applied,
}

module _ {S : Type 0} (host : Host S) where
  run_migrations-listed :
      (dir : Text) (entries : List Entry) (s : S)
      → read_migrations host ≡ ok (dir, entries)
      → run_migrations host s ≡ run_files host dir (sort_strings (up_files entries)) s
  unfolding run_migrations
  run_migrations-listed dir entries s listed = rw (listed, run_migrations) refl

  -- CREATE TABLE IF NOT EXISTS, which a run does if there are files.
  abbrev pub made_table : List Text → S → S
  made_table [] s = s
  made_table (file ∷ files) s = (host.create_table s).1

  -- No INSERT fails that a run on these files makes.
  abbrev pub run_records : Text → List Text → S → Bool
  run_records dir [] s = true
  run_records dir (file ∷ files) s = elim (host.max_batch (host.create_table s).1) [
    | err e ↦ true
    | ok current ↦ records_all host dir (current + 1) (file ∷ files) (host.create_table s).1
  ]

  module _ (laws : MigrationLaws host) where
    -- The file is still to be run.
    abbrev pub is_pending : Text → S → Text → Bool
    is_pending dir s file = not (laws.applied s (migration_name file)) && has_content host dir file

    run_files_steps :
        (dir : Text) (files : List Text) (s : S)
        → run_records dir files s ≡ true
        → (run_files host dir files s).0 ≡ ok tt
        → (batch : ℕ) × (run_files host dir files s
            ≡ apply_files host dir batch files (made_table files s))
          × (records_all host dir batch files (made_table files s) ≡ true)
    unfolding run_files apply_files
    run_files_steps dir [] s rec h = (0, refl, refl)
    run_files_steps dir (file ∷ files) s rec h =
        elim (Result-cases (host.max_batch (host.create_table s).1)) [
          | inr (e, failed) ↦ absurd (ground arith)
          | inl (current, read) ↦
              (current + 1, rw (read, run_files) refl, ground (arith, read, rec))
        ]

    made_table-applied :
        (files : List Text) (s : S) (n : Text)
        → laws.applied (made_table files s) n ≡ laws.applied s n
    made_table-applied [] s n = refl
    made_table-applied (file ∷ files) s n = laws.create_applied s n

    -- Where nothing is pending the loop leaves the state alone.
    apply_files-settled :
        (dir : Text) (batch : ℕ) (files : List Text) (s : S)
        → any (is_pending dir s) files ≡ false
        → (apply_files host dir batch files s).1 ≡ s
    unfolding apply_files ◌==◌
    apply_files-settled dir batch [] s h = refl
    apply_files-settled dir batch (file ∷ files) s h =
        elim (Result-cases (host.count_name (migration_name file) s)) [
          | inr (e, failed) ↦ rw (step_uncounted host dir batch file files s e failed) refl
          | inl (suc k, counted) ↦
              rw (step_applied host dir batch file files s k counted)
                (apply_files-settled dir batch files s (ground arith))
          | inl (zero, counted) ↦ elim (Result-cases (host.read_file dir file)) [
            | inr (e, failed) ↦ rw (step_unread host dir batch file files s counted e failed) refl
            | inl (content, read) ↦ elim (List-cases (host.trim_space content)) [
              | inl blank ↦
                  rw (step_blank host dir batch file files s counted content read blank)
                    (apply_files-settled dir batch files s (ground arith))
              | inr (c, cs, text) ↦
                  absurd (ground (arith, laws.count (migration_name file) s 0 counted))
            ]
          ]
        ]

    run_files-settled :
        (dir : Text) (files : List Text) (s : S)
        → any (is_pending dir (made_table files s)) files ≡ false
        → (run_files host dir files s).1 ≡ made_table files s
    unfolding run_files
    run_files-settled dir [] s h = refl
    run_files-settled dir (file ∷ files) s h =
        elim (Result-cases (host.max_batch (host.create_table s).1)) [
          | inr (e, failed) ↦ rw (failed, run_files) refl
          | inl (current, read) ↦
              rw (read, run_files)
                (apply_files-settled dir (current + 1) (file ∷ files) (host.create_table s).1 h)
        ]

    -- Under the laws of the host, if the directory can be read, the SQL of its .up.sql files leaves
    -- the rows of the migrations table alone and no INSERT of the run fails: after a successful run
    -- the applied migrations are those applied before and those of the directory's .up.sql files
    -- that are not blank.
    pub run_migrations-applied :
        (dir n : Text) (entries : List Entry) (s : S)
        → read_migrations host ≡ ok (dir, entries)
        → LeaveTable host laws dir (up_files entries)
        → run_records dir (sort_strings (up_files entries)) s ≡ true
        → (run_migrations host s).0 ≡ ok tt
        → laws.applied (run_migrations host s).1 n
          ≡ (laws.applied s n || any (carries host dir n) (up_files entries))
    run_migrations-applied dir n entries s listed leave rec h =
        let files = sort_strings (up_files entries) in
        let same = run_migrations-listed dir entries s listed in
        let (batch, steps, recorded) = run_files_steps dir files s rec (rw same at h) in
        rw same (
          rw steps (
            apply_files-applied host laws dir n batch files (made_table files s)
              (λ f content among.
                leave f content (sym (contains-sort_strings f (up_files entries)) ∙ among))
              recorded (rw steps at (rw same at h))
            ∙ ground (
              arith,
              made_table-applied files s n,
              any-sort_strings (carries host dir n) (up_files entries),
            )))

    -- Under the laws of the host, if the directory can be read, the SQL of its .up.sql files leaves
    -- the rows of the migrations table alone and no INSERT of the run fails: a run after a
    -- successful run, whether it succeeds or not, changes nothing but what CREATE TABLE IF NOT
    -- EXISTS changes.
    pub run_migrations-again :
        (dir : Text) (entries : List Entry) (s : S)
        → read_migrations host ≡ ok (dir, entries)
        → LeaveTable host laws dir (up_files entries)
        → run_records dir (sort_strings (up_files entries)) s ≡ true
        → (run_migrations host s).0 ≡ ok tt
        → let after = (run_migrations host s).1 in
          (run_migrations host after).1 ≡ made_table (sort_strings (up_files entries)) after
    run_migrations-again dir entries s listed leave rec h =
        let after = (run_migrations host s).1 in
        let files = sort_strings (up_files entries) in
        rw (run_migrations-listed dir entries after listed) (
          run_files-settled dir files after
            (elim (Bool-cases (any (is_pending dir (made_table files after)) files)) [
              | inr settled ↦ settled
              | inl pending ↦
                  let (f, among, e) =
                    contains_of_any (is_pending dir (made_table files after)) files pending in
                  absurd (
                    ground (
                      arith,
                      made_table-applied files after (migration_name f),
                      run_migrations-applied dir (migration_name f) entries s listed leave rec h,
                      any-sort_strings (carries host dir (migration_name f)) (up_files entries),
                      any_of_contains (carries host dir (migration_name f)) f files among,
                      eq_refl (migration_name f),
                    ))
            ]))
