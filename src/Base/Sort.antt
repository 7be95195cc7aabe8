-- ===== src/Base/Sort.antt =====
-- `sort.Strings`, as insertion into a sorted list: it keeps the elements and puts them in order.
use mathlib.Core.Path.{◌≡◌, refl}
use mathlib.Core.Bool.{Bool, true, ◌||◌}
use mathlib.Core.List.{List, [], ◌∷◌}
use native.Mathlib.Omega.{arith}
use golang_base.Base.Tests.{if◌then◌else◌}
use golang_base.Base.Lists.{any}
use golang_base.Base.Bytes.{Text, ◌==◌, contains}
use golang_base.Base.BytesOrder.{text_le, text_le_total, text_le_trans}

unfoldable pub insert_sorted : Text → List Text → List Text
insert_sorted k [] = k ∷ []
insert_sorted k (x ∷ xs) = if text_le k x then k ∷ x ∷ xs else x ∷ insert_sorted k xs

unfoldable pub sort_strings : List Text → List Text
sort_strings [] = []
sort_strings (x ∷ xs) = insert_sorted x (sort_strings xs)

abbrev pub BelowAll : Text → List Text → Type 0
BelowAll k [] = Unit
BelowAll k (x ∷ xs) = (text_le k x ≡ true) × BelowAll k xs

-- In ascending byte order.
abbrev pub IsSorted : List Text → Type 0
IsSorted [] = Unit
IsSorted (x ∷ xs) = BelowAll x xs × IsSorted xs

contains-insert_sorted :
    (k x : Text) (xs : List Text) → contains k (insert_sorted x xs) ≡ (x == k || contains k xs)
unfolding contains insert_sorted
contains-insert_sorted k x [] = refl
contains-insert_sorted k x (y ∷ xs) = ground (arith, contains-insert_sorted k x xs)

pub contains-sort_strings :
    (k : Text) (xs : List Text) → contains k (sort_strings xs) ≡ contains k xs
unfolding contains sort_strings
contains-sort_strings k [] = refl
contains-sort_strings k (x ∷ xs) = rw contains-insert_sorted (rw (contains-sort_strings k xs))

BelowAll-trans : (j k : Text) (xs : List Text) → text_le j k ≡ true → BelowAll k xs → BelowAll j xs
BelowAll-trans j k [] h b = tt
BelowAll-trans j k (x ∷ xs) h b = (text_le_trans j k x h b.0, BelowAll-trans j k xs h b.1)

BelowAll-insert_sorted :
    (j k : Text) (xs : List Text)
    → text_le j k ≡ true
    → BelowAll j xs
    → BelowAll j (insert_sorted k xs)
unfolding insert_sorted
BelowAll-insert_sorted j k [] h b = (h, tt)
BelowAll-insert_sorted j k (x ∷ xs) h b = ground (arith, BelowAll-insert_sorted j k xs h b.1)

insert_sorted-IsSorted : (k : Text) (xs : List Text) → IsSorted xs → IsSorted (insert_sorted k xs)
unfolding insert_sorted
insert_sorted-IsSorted k [] h = (tt, tt)
insert_sorted-IsSorted k (x ∷ xs) h = ground (
  arith,
  insert_sorted-IsSorted k xs h.1,
  BelowAll-trans k x xs,
  BelowAll-insert_sorted x k xs,
  text_le_total k x,
)

pub sort_strings-IsSorted : (xs : List Text) → IsSorted (sort_strings xs)
unfolding sort_strings
sort_strings-IsSorted [] = tt
sort_strings-IsSorted (x ∷ xs) =
    insert_sorted-IsSorted x (sort_strings xs) (sort_strings-IsSorted xs)

any-insert_sorted :
    (f : Text → Bool) (x : Text) (xs : List Text) → any f (insert_sorted x xs) ≡ (f x || any f xs)
unfolding insert_sorted
any-insert_sorted f x [] = refl
any-insert_sorted f x (y ∷ xs) = ground (arith, any-insert_sorted f x xs)

pub any-sort_strings : (f : Text → Bool) (xs : List Text) → any f (sort_strings xs) ≡ any f xs
unfolding sort_strings
any-sort_strings f [] = refl
any-sort_strings f (x ∷ xs) = rw any-insert_sorted (rw (any-sort_strings f xs))
