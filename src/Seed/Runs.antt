-- ===== src/Seed/Runs.antt =====
-- cmd/seed/seeders/seeder.go: the sequence of runs of RunAll.
use golang_base.Base.{
  ℕ, ◌≤◌, true, false, List, [], ◌∷◌, ◌++◌, Text, codes, contains, Dict, leb, ◌≡◌, refl, ap, sym,
  arith, inl, inr, Bool-cases, map,
}
use mathlib.Core.Path.{subst}
use mathlib.Core.List.{Perm}
use mathlib.Core.List.Perm
use golang_base.Domain.Errors.{Error, message, Result, ok, err, Result-cases}
use golang_base.Seed.{
  Seeder, name_failure, insert_by_order, sort_by_order, run_seeders, seeders_of, run_all,
}

module _ {S : Type 0} where
  -- Each seeder's order is at most that of the next ones.
  abbrev pub NotAfter : ℕ → List (Seeder S) → Type 0
  NotAfter n [] = Unit
  NotAfter n (y ∷ ys) = (n ≤ y.order) × NotAfter n ys

  abbrev pub IsAscending : List (Seeder S) → Type 0
  IsAscending [] = Unit
  IsAscending (x ∷ xs) = NotAfter x.order xs × IsAscending xs

  -- How the seeders of a list ran one after the other, the excluded ones left out, up to the first
  -- one that failed; from one state to another, with the result at the end.
  pub data Ran (describe : Error → Text) (excluded : List Text)
      : List (Seeder S) → S → Result (Unit {0}) → S → Type 0 where
    all_done : (s : S) → Ran describe excluded [] s (ok tt) s
    left_out :
        (x : Seeder S) (xs : List (Seeder S)) (s s' : S) (r : Result (Unit {0}))
        → contains x.name excluded ≡ true
        → Ran describe excluded xs s r s'
        → Ran describe excluded (x ∷ xs) s r s'
    succeeded :
        (x : Seeder S) (xs : List (Seeder S)) (s s' s'' : S) (r : Result (Unit {0}))
        → contains x.name excluded ≡ false
        → x.run s ≡ (ok tt, s')
        → Ran describe excluded xs s' r s''
        → Ran describe excluded (x ∷ xs) s r s''
    failed :
        (x : Seeder S) (xs : List (Seeder S)) (s s' : S) (e : Error)
        → contains x.name excluded ≡ false
        → x.run s ≡ (err e, s')
        → Ran describe excluded
            (x ∷ xs)
            s
            (err (message (x.name ++ (codes " failed: " ++ describe e))))
            s'

  NotAfter-insert :
      (n : ℕ) (x : Seeder S) (ys : List (Seeder S))
      → n ≤ x.order
      → NotAfter n ys
      → NotAfter n (insert_by_order x ys)
  unfolding insert_by_order
  NotAfter-insert n x [] h k = (h, tt)
  NotAfter-insert n x (y ∷ ys) h k = ground (arith, NotAfter-insert n x ys h k.1)

  NotAfter-le : (m n : ℕ) (ys : List (Seeder S)) → m ≤ n → NotAfter n ys → NotAfter m ys
  NotAfter-le m n [] h k = tt
  NotAfter-le m n (y ∷ ys) h k = (omega (arith, h, k.0), NotAfter-le m n ys h k.1)

  insert-IsAscending :
      (x : Seeder S) (ys : List (Seeder S)) → IsAscending ys → IsAscending (insert_by_order x ys)
  unfolding insert_by_order
  insert-IsAscending x [] h = (tt, tt)
  insert-IsAscending x (y ∷ ys) h = elim (Bool-cases (leb x.order y.order)) [
    | inl le ↦
        rw (le, insert_by_order)
          ((ground (arith, le), NotAfter-le x.order y.order ys (ground (arith, le)) h.0), h)
    | inr gt ↦
        rw (gt, insert_by_order)
          (NotAfter-insert y.order x ys (ground (arith, gt)) h.0, insert-IsAscending x ys h.1)
  ]

  sort-IsAscending : (xs : List (Seeder S)) → IsAscending (sort_by_order xs)
  unfolding sort_by_order
  sort-IsAscending [] = tt
  sort-IsAscending (x ∷ xs) = insert-IsAscending x (sort_by_order xs) (sort-IsAscending xs)

  insert-Perm : (x : Seeder S) (ys : List (Seeder S)) → Perm (insert_by_order x ys) (x ∷ ys)
  unfolding insert_by_order
  insert-Perm x [] = Perm.rfl
  insert-Perm x (y ∷ ys) = elim (Bool-cases (leb x.order y.order)) [
    | inl le ↦ rw (le, insert_by_order) Perm.rfl
    | inr gt ↦
        rw (gt, insert_by_order) (Perm.trans (Perm.cons y (insert-Perm x ys)) (Perm.swap x y ys))
  ]

  sort-Perm : (xs : List (Seeder S)) → Perm (sort_by_order xs) xs
  unfolding sort_by_order
  sort-Perm [] = Perm.rfl
  sort-Perm (x ∷ xs) = Perm.trans (insert-Perm x (sort_by_order xs)) (Perm.cons x (sort-Perm xs))

  seeders_of_lem : (registry : Dict (Seeder S)) → seeders_of registry ≡ map (λ e. e.1) registry
  unfolding seeders_of
  seeders_of_lem [] = refl
  seeders_of_lem ((name, x) ∷ registry) = ap (λ xs. x ∷ xs) (seeders_of_lem registry)

  module _ (describe : Error → Text) (excluded : List Text) where
    run_seeders-Ran :
        (xs : List (Seeder S)) (s : S)
        → Ran describe excluded xs s
            (run_seeders describe excluded xs s).0
            (run_seeders describe excluded xs s).1
    unfolding run_seeders name_failure
    run_seeders-Ran [] s = all_done s
    run_seeders-Ran (x ∷ xs) s = elim (Bool-cases (contains x.name excluded)) [
      | inl out ↦ rw (out, run_seeders) (left_out x xs s _ _ out (run_seeders-Ran xs s))
      | inr kept ↦ elim (Result-cases (x.run s).0) [
        | inr (e, bad) ↦
            let step : run_seeders describe excluded (x ∷ xs) s
                ≡ (err (message (x.name ++ (codes " failed: " ++ describe e))), (x.run s).1) =
              ground arith in
            subst (λ z. Ran describe excluded (x ∷ xs) s z.0 z.1) (sym step)
              (failed x xs s (x.run s).1 e kept (ground arith))
        | inl (u, good) ↦
            let step : run_seeders describe excluded (x ∷ xs) s
                ≡ run_seeders describe excluded xs (x.run s).1 =
              ground arith in
            subst (λ z. Ran describe excluded (x ∷ xs) s z.0 z.1) (sym step)
              (succeeded x xs s (x.run s).1 _ _ kept (ground arith)
                (run_seeders-Ran xs (x.run s).1))
      ]
    ]

    -- RunAll takes the seeders that are registered, each as often as it is registered and no
    -- others, in ascending order of their Order(); it leaves out those whose name is excluded, and
    -- stops at the first one that fails, with an error that names it; it ends with the state and
    -- the result of that sequence of runs.
    pub run_all-Ran :
        (registry : Dict (Seeder S)) (s : S)
        → (xs : List (Seeder S)) × IsAscending xs
          × Perm xs (map (λ e. e.1) registry)
          × Ran describe excluded xs s
              (run_all describe excluded registry s).0
              (run_all describe excluded registry s).1
    unfolding run_all
    run_all-Ran registry s = (
      sort_by_order (seeders_of registry),
      sort-IsAscending (seeders_of registry),
      subst (Perm (sort_by_order (seeders_of registry))) (seeders_of_lem registry)
          (sort-Perm (seeders_of registry)),
      run_seeders-Ran (sort_by_order (seeders_of registry)) s,
    )
