-- ===== src/Base/Space.antt =====
-- `strings.TrimSpace` on UTF-8: the spaces of Unicode, by their bytes, at either end.
use Prim.Native.Nat.{ℕ}
use mathlib.Core.Bool.{Bool, true, false, ◌&&◌, ◌||◌}
use mathlib.Core.List.{[], ◌∷◌}
use golang_base.Base.Tests.{eqb, leb}
use golang_base.Base.Bytes.{Text}
use golang_base.Base.Paths.{rev_onto}

-- Tab to carriage return, and the blank.
abbrev pub is_space : ℕ → Bool
is_space a = (leb 9 a && leb a 13) || eqb a 32

-- U+0085 and U+00A0.
abbrev is_space2 : ℕ → ℕ → Bool
is_space2 a b = eqb a 0xc2 && (eqb b 0x85 || eqb b 0xa0)

-- U+1680, U+2000 to U+200A, U+2028, U+2029, U+202F, U+205F and U+3000.
abbrev is_space3 : ℕ → ℕ → ℕ → Bool
is_space3 a b c =
    (eqb a 0xe1 && (eqb b 0x9a && eqb c 0x80))
    || (eqb a 0xe2
        && ((eqb b 0x80
              && ((leb 0x80 c && leb c 0x8a) || (eqb c 0xa8 || (eqb c 0xa9 || eqb c 0xaf))))
            || (eqb b 0x81 && eqb c 0x9f)))
    || (eqb a 0xe3 && (eqb b 0x80 && eqb c 0x80))

unfoldable pub trim_front : Text → Text
trim_front [] = []
trim_front (a ∷ []) = elim (is_space a) [ true ↦ [] | false ↦ a ∷ [] ]
trim_front (a ∷ b ∷ []) = elim (is_space a) [
  | true ↦ trim_front (b ∷ [])
  | false ↦ elim (is_space2 a b) [ true ↦ [] | false ↦ a ∷ b ∷ [] ]
]
trim_front (a ∷ b ∷ c ∷ s) = elim (is_space a) [
  | true ↦ trim_front (b ∷ c ∷ s)
  | false ↦ elim (is_space2 a b) [
    | true ↦ trim_front (c ∷ s)
    | false ↦ elim (is_space3 a b c) [ true ↦ trim_front s | false ↦ a ∷ b ∷ c ∷ s ]
  ]
]

-- The same on a reversed text.
unfoldable pub trim_back : Text → Text
trim_back [] = []
trim_back (a ∷ []) = elim (is_space a) [ true ↦ [] | false ↦ a ∷ [] ]
trim_back (b ∷ a ∷ []) = elim (is_space b) [
  | true ↦ trim_back (a ∷ [])
  | false ↦ elim (is_space2 a b) [ true ↦ [] | false ↦ b ∷ a ∷ [] ]
]
trim_back (c ∷ b ∷ a ∷ s) = elim (is_space c) [
  | true ↦ trim_back (b ∷ a ∷ s)
  | false ↦ elim (is_space2 b c) [
    | true ↦ trim_back (a ∷ s)
    | false ↦ elim (is_space3 a b c) [ true ↦ trim_back s | false ↦ c ∷ b ∷ a ∷ s ]
  ]
]

unfoldable pub trim_space : Text → Text
trim_space s = rev_onto (trim_back (rev_onto (trim_front s) [])) []
