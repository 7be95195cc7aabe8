-- ===== src/Base/Maps.antt =====
-- A Go map keyed by texts, as an association list whose order is one order of iteration.
use mathlib.Core.Path.{◌≡◌, refl}
use mathlib.Core.Bool.{Bool, true, false}
use mathlib.Core.Option.{Option, none, some}
use mathlib.Core.List.{List, [], ◌∷◌}
use native.Mathlib.Omega.{arith}
use golang_base.Base.Tests.{if◌then◌else◌}
use golang_base.Base.Bytes.{Text, ◌==◌, eq_iff, contains}

abbrev pub Dict {ℓ} : Type ℓ → Type ℓ
Dict V = List (Text × V)

module _ {ℓ} {V : Type ℓ} where
  unfoldable pub lookup : Text → Dict V → Option V
  lookup k [] = none
  lookup k ((j, v) ∷ d) = if j == k then some v else lookup k d

  -- `d[k] = v`
  unfoldable pub insert : Text → V → Dict V → Dict V
  insert k v [] = (k, v) ∷ []
  insert k v ((j, w) ∷ d) = if j == k then (k, v) ∷ d else (j, w) ∷ insert k v d

  -- `delete(d, k)`
  unfoldable pub erase : Text → Dict V → Dict V
  erase k [] = []
  erase k ((j, w) ∷ d) = let rest = erase k d in if j == k then rest else (j, w) ∷ rest

  -- The keys, in the order of iteration.
  unfoldable pub keys : Dict V → List Text
  keys [] = []
  keys ((j, w) ∷ d) = j ∷ keys d

  -- No key stands twice.
  abbrev pub IsDict : Dict V → Type ℓ
  IsDict [] = Unit
  IsDict ((j, w) ∷ d) = (lookup j d ≡ none) × IsDict d

  pub lookup-insert :
      (k j : Text) (v : V) (d : Dict V)
      → lookup j (insert k v d) ≡ (if k == j then some v else lookup j d)
  unfolding lookup insert
  lookup-insert k j v [] = refl
  lookup-insert k j v ((i, w) ∷ d) =
      ground (arith, eq_iff k j, eq_iff i k, eq_iff i j, lookup-insert k j v d)

  pub lookup-erase :
      (k j : Text) (d : Dict V) → lookup j (erase k d) ≡ (if k == j then none else lookup j d)
  unfolding lookup erase
  lookup-erase k j [] = ground arith
  lookup-erase k j ((i, w) ∷ d) =
      ground (arith, eq_iff k j, eq_iff i k, eq_iff i j, lookup-erase k j d)

  pub insert-IsDict : (k : Text) (v : V) (d : Dict V) → IsDict d → IsDict (insert k v d)
  unfolding insert lookup
  insert-IsDict k v [] h = (refl, tt)
  insert-IsDict k v ((i, w) ∷ d) h =
      ground (arith, insert-IsDict k v d h.1, eq_iff i k, eq_iff k i, lookup-insert k i v d)

  pub erase-IsDict : (k : Text) (d : Dict V) → IsDict d → IsDict (erase k d)
  unfolding erase
  erase-IsDict k [] h = tt
  erase-IsDict k ((i, w) ∷ d) h = ground (arith, erase-IsDict k d h.1, lookup-erase k i d)

  -- `_, ok := d[k]`
  abbrev pub has_key : Text → Dict V → Bool
  has_key k d = elim (lookup k d) [ none ↦ false | some _ ↦ true ]

  -- A key is listed exactly when the map has it.
  pub contains-keys : (k : Text) (d : Dict V) → contains k (keys d) ≡ has_key k d
  unfolding contains keys lookup
  contains-keys k [] = refl
  contains-keys k ((j, w) ∷ d) = ground (arith, contains-keys k d)
