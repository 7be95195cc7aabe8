-- ===== src/Infra/Monad.antt =====
-- Calls that may fail and that change a state: the state comes back after an error too, since what
-- was written stays written.
use golang_base.Base.{Bool, if◌then◌else◌}
use golang_base.Domain.Errors.{Error, Result, ok, err}

abbrev pub Act : Type 0 → Type 0 → Type 0
Act S A = S → Result A × S

infixl 5 ◌>>=◌ ◌>>◌
abbrev pub ◌>>=◌ : {S A B : Type 0} → Act S A → (A → Act S B) → Act S B
◌>>=◌ m f s = let (r, s') = m s in elim r [ ok a ↦ f a s' | err e ↦ (err e, s') ]

abbrev pub ◌>>◌ : {S A B : Type 0} → Act S A → Act S B → Act S B
m >> k = m >>= λ _. k

module _ {S A : Type 0} where
  abbrev pub give : Result A → Act S A
  give r s = (r, s)

  abbrev pub read : (S → Result A) → Act S A
  read f s = (f s, s)

  -- The error is mapped before it is returned.
  abbrev pub map_err : (Error → Error) → Act S A → Act S A
  map_err f m s = let (r, s') = m s in (elim r [ ok a ↦ ok a | err e ↦ err (f e) ], s')

  -- The call's error is dropped.
  abbrev pub ignore : Act S A → Act S (Unit {0})
  ignore m s = (ok tt, (m s).1)

abbrev pub skip : {S : Type 0} → Act S (Unit {0})
skip s = (ok tt, s)

abbrev pub when : {S : Type 0} → Bool → Act S (Unit {0}) → Act S (Unit {0})
when b m s = if b then m s else (ok tt, s)
