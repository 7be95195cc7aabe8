-- ===== src/Migrate/Runs.antt =====
-- cmd/migrate/main.go: what a run of the migrations leaves behind.
use golang_base.Base.{
  ℕ, zero, suc, Bool, true, false, not, ◌&&◌, ◌||◌, List, [], ◌∷◌, Text, ◌==◌, eq_of_test, eq_refl,
  contains, any, ltb, ◌≡◌, refl, ap, sym, ◌∙◌, arith, ◌⊎◌, inl, inr,
}
use golang_base.Domain.Errors.{Error, ok, err, Result-cases}
use golang_base.Migrate.{Host, migration_name, apply_files}

-- What a run relies on: `applied s n` is whether the table has a row named `n`, which the count
-- shows; CREATE TABLE IF NOT EXISTS adds no row, and an INSERT that succeeds adds its own.
pub record MigrationLaws {S : Type 0} (host : Host S) : Type 0 where
  pub applied : S → Text → Bool
  pub count : (n : Text) (s : S) (k : ℕ) → host.count_name n s ≡ ok k → ltb 0 k ≡ applied s n
  pub create_applied : (s : S) (n : Text) → applied (host.create_table s).1 n ≡ applied s n
  pub insert_applied :
      (name : Text) (batch : ℕ) (s : S) (n : Text)
      → (host.insert_migration name batch s).0 ≡ ok tt
      → applied (host.insert_migration name batch s).1 n ≡ (name == n || applied s n)

pub List-cases : (t : Text) → (t ≡ []) ⊎ ((c : ℕ) × (cs : Text) × (t ≡ c ∷ cs))
List-cases [] = inl refl
List-cases (c ∷ cs) = inr (c, cs, refl)

module _ {S : Type 0} (host : Host S) where
  -- The file is there and is not blank.
  abbrev pub has_content : Text → Text → Bool
  has_content dir file = elim (host.read_file dir file) [
    | err e ↦ false
    | ok content ↦ not (host.trim_space content == [])
  ]

  -- The file carries the migration with this name.
  abbrev pub carries : Text → Text → Text → Bool
  carries dir n file = migration_name file == n && has_content dir file

  -- No INSERT fails that the loop makes, each in the state in which the loop makes it.
  abbrev pub records_all : Text → ℕ → List Text → S → Bool
  records_all dir batch [] s = true
  records_all dir batch (file ∷ files) s = elim (host.count_name (migration_name file) s) [
    | err e ↦ true
    | ok (suc k) ↦ records_all dir batch files s
    | ok zero ↦ elim (host.read_file dir file) [
      | err e ↦ true
      | ok content ↦ elim (host.trim_space content) [
        | [] ↦ records_all dir batch files s
        | c ∷ cs ↦
            let (r, s') = host.exec (c ∷ cs) s in
            elim r [
              | err e ↦ true
              | ok done ↦
                  let (written, s'') = host.insert_migration (migration_name file) batch s' in
                  elim written [ err e ↦ false | ok u ↦ records_all dir batch files s'' ]
            ]
      ]
    ]
  ]

  -- The first file of the list, by what is found: it is applied, cannot be read, is blank, fails,
  -- or runs.
  module _ (dir : Text) (batch : ℕ) (file : Text) (files : List Text) (s : S) where
    pub step_applied :
        (k : ℕ)
        → host.count_name (migration_name file) s ≡ ok (suc k)
        → apply_files host dir batch (file ∷ files) s ≡ apply_files host dir batch files s
    unfolding apply_files
    step_applied k counted = rw (counted, apply_files) refl

    pub step_uncounted :
        (e : Error)
        → host.count_name (migration_name file) s ≡ err e
        → apply_files host dir batch (file ∷ files) s ≡ (err e, s)
    unfolding apply_files
    step_uncounted e failed = rw (failed, apply_files) refl

    module _ (counted : host.count_name (migration_name file) s ≡ ok 0) where
      pub step_unread :
          (e : Error)
          → host.read_file dir file ≡ err e
          → apply_files host dir batch (file ∷ files) s ≡ (err e, s)
      unfolding apply_files
      step_unread e failed = rw (counted, apply_files) (rw failed refl)

      module _ (content : Text) (read : host.read_file dir file ≡ ok content) where
        pub step_blank :
            host.trim_space content ≡ []
            → apply_files host dir batch (file ∷ files) s ≡ apply_files host dir batch files s
        unfolding apply_files
        step_blank blank = rw (counted, apply_files) (rw read (rw blank refl))

        step_failed :
            (c : ℕ) (cs : Text) (e : Error)
            → host.trim_space content ≡ c ∷ cs
            → (host.exec (c ∷ cs) s).0 ≡ err e
            → apply_files host dir batch (file ∷ files) s ≡ (err e, (host.exec (c ∷ cs) s).1)
        unfolding apply_files
        step_failed c cs e text failed =
            rw (counted, apply_files) (rw read (rw text (rw failed refl)))

        step_run :
            (c : ℕ) (cs : Text)
            → host.trim_space content ≡ c ∷ cs
            → (host.exec (c ∷ cs) s).0 ≡ ok tt
            → apply_files host dir batch (file ∷ files) s
              ≡ apply_files host dir batch files
                  (host.insert_migration (migration_name file) batch (host.exec (c ∷ cs) s).1).1
        unfolding apply_files
        step_run c cs text done = rw (counted, apply_files) (rw read (rw text (rw done refl)))

  module _ (laws : MigrationLaws host) where
    -- The SQL of these files, where it succeeds, leaves the rows of the migrations table alone.
    abbrev pub LeaveTable : Text → List Text → Type 0
    LeaveTable dir files =
        (file content : Text)
        → contains file files ≡ true
        → host.read_file dir file ≡ ok content
        → (s : S) (n : Text) → (host.exec (host.trim_space content) s).0 ≡ ok tt
        → laws.applied (host.exec (host.trim_space content) s).1 n ≡ laws.applied s n

    -- A loop that succeeds gets past the first file, to a state with the file's row if it ran.
    module _ (dir n : Text) (batch : ℕ) (file : Text) (files : List Text) (s : S)
        (h : (apply_files host dir batch (file ∷ files) s).0 ≡ ok tt) where
      abbrev PastFirst : Type 0
      PastFirst =
          (s' : S) × (apply_files host dir batch (file ∷ files) s
            ≡ apply_files host dir batch files s')
          × (records_all dir batch files s' ≡ true)
          × (laws.applied s' n ≡ (laws.applied s n || carries dir n file))

      run_first :
          (content : Text) (c : ℕ) (cs : Text)
          → LeaveTable dir (file ∷ files)
          → records_all dir batch (file ∷ files) s ≡ true
          → host.count_name (migration_name file) s ≡ ok 0
          → host.read_file dir file ≡ ok content
          → host.trim_space content ≡ c ∷ cs
          → PastFirst
      unfolding contains ◌==◌
      run_first content c cs leave rec counted read text =
          let s1 = (host.exec (c ∷ cs) s).1 in
          elim (Result-cases (host.exec (c ∷ cs) s).0) [
            | inr (e, failed) ↦ absurd (
                ground (
                  arith,
                  step_failed dir batch file files s counted content read c cs e text failed,
                ))
            | inl (u, done) ↦
                elim (Result-cases (host.insert_migration (migration_name file) batch s1).0) [
                  | inr (e, failed) ↦ absurd (ground arith)
                  | inl (v, written) ↦
                      let same : laws.applied s1 n ≡ laws.applied s n =
                        ap (λ t. laws.applied (host.exec t s).1 n) (sym text)
                        ∙ leave file content (ground (arith, eq_refl file)) read s n
                            (ap (λ t. (host.exec t s).0) text ∙ done) in
                      (
                        (host.insert_migration (migration_name file) batch s1).1,
                        step_run dir batch file files s counted content read c cs text done,
                        ground arith,
                        ground (
                          arith,
                          laws.insert_applied (migration_name file) batch s1 n written,
                          same,
                        ),
                      )
                ]
          ]

      past_first :
          LeaveTable dir (file ∷ files) → records_all dir batch (file ∷ files) s ≡ true → PastFirst
      unfolding ◌==◌
      past_first leave rec = elim (Result-cases (host.count_name (migration_name file) s)) [
        | inr (e, failed) ↦ absurd (ground (arith, step_uncounted dir batch file files s e failed))
        | inl (suc k, counted) ↦ (
          s,
          step_applied dir batch file files s k counted,
          ground arith,
          ground (
            arith,
            laws.count (migration_name file) s (suc k) counted,
            eq_of_test (migration_name file) n,
          ),
        )
        | inl (zero, counted) ↦ elim (Result-cases (host.read_file dir file)) [
          | inr (e, failed) ↦
              absurd (ground (arith, step_unread dir batch file files s counted e failed))
          | inl (content, read) ↦ elim (List-cases (host.trim_space content)) [
            | inl blank ↦ (
              s,
              step_blank dir batch file files s counted content read blank,
              ground arith,
              ground arith,
            )
            | inr (c, cs, text) ↦ run_first content c cs leave rec counted read text
          ]
        ]
      ]

    pub apply_files-applied :
        (dir n : Text) (batch : ℕ) (files : List Text) (s : S)
        → LeaveTable dir files
        → records_all dir batch files s ≡ true
        → (apply_files host dir batch files s).0 ≡ ok tt
        → laws.applied (apply_files host dir batch files s).1 n
          ≡ (laws.applied s n || any (carries dir n) files)
    unfolding apply_files contains
    apply_files-applied dir n batch [] s leave rec h = ground arith
    apply_files-applied dir n batch (file ∷ files) s leave rec h =
        let (s', step, rec', row) = past_first dir n batch file files s h leave rec in
        rw step (
          ground (
            arith,
            apply_files-applied dir n batch files s'
                (λ f content among. leave f content (ground (arith, among))) rec' (rw step at h),
            row,
          ))
