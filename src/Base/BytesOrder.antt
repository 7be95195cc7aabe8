-- ===== src/Base/BytesOrder.antt =====
-- The byte order of texts, by which `sort.Strings` sorts.
use mathlib.Core.Path.{◌≡◌, refl}
use mathlib.Core.Logic.{◌⊎◌, inl, inr}
use mathlib.Core.Bool.{Bool, true, false, ◌&&◌, ◌||◌}
use mathlib.Core.List.{[], ◌∷◌}
use native.Mathlib.Omega.{arith}
use golang_base.Base.Tests.{ltb, eqb}
use golang_base.Base.Bytes.{Text}

-- `s <= t`
unfoldable pub text_le : Text → Text → Bool
text_le [] t = true
text_le (x ∷ s) [] = false
text_le (x ∷ s) (y ∷ t) = ltb x y || (eqb x y && text_le s t)

pub text_le_total : (s t : Text) → (text_le s t ≡ true) ⊎ (text_le t s ≡ true)
unfolding text_le
text_le_total [] t = inl refl
text_le_total (x ∷ s) [] = inr refl
text_le_total (x ∷ s) (y ∷ t) = ground (arith, text_le_total s t)

pub text_le_antisym : (s t : Text) → text_le s t ≡ true → text_le t s ≡ true → s ≡ t
unfolding text_le
text_le_antisym [] [] h k = refl
text_le_antisym [] (y ∷ t) h k = cc
text_le_antisym (x ∷ s) [] h k = cc
text_le_antisym (x ∷ s) (y ∷ t) h k = ground (arith, text_le_antisym s t)

pub text_le_trans : (s t u : Text) → text_le s t ≡ true → text_le t u ≡ true → text_le s u ≡ true
unfolding text_le
text_le_trans [] t u h k = refl
text_le_trans (x ∷ s) [] u h k = cc
text_le_trans (x ∷ s) (y ∷ t) [] h k = cc
text_le_trans (x ∷ s) (y ∷ t) (z ∷ u) h k = ground (arith, text_le_trans s t u)
