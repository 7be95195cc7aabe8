-- ===== src/Base/Int.antt =====
-- Go's int, 64 bits wide: integers over the native numbers, and what wraps.
use Prim.Native.Nat.{ℕ, ◌-◌, ◌%◌}
use mathlib.Core.Bool.{Bool, false}
use golang_base.Base.Tests.{ltb, if◌then◌else◌}

-- `negsuc n` is -(n + 1).
pub data ℤ : Type 0 where
  pos : ℕ → ℤ
  negsuc : ℕ → ℤ

-- `i > 0`
abbrev pub is_positive : ℤ → Bool
is_positive (pos n) = ltb 0 n
is_positive (negsuc n) = false

abbrev pub to_ℕ : ℤ → ℕ
to_ℕ (pos n) = n
to_ℕ (negsuc n) = 0

abbrev pub int64_mod : ℕ
int64_mod = 0x1_0000_0000_0000_0000

abbrev pub max_int64 : ℕ
max_int64 = 0x7fff_ffff_ffff_ffff

-- The int64 whose bit pattern is that of a natural number modulo 2^64.
abbrev pub wrap_int64 : ℕ → ℤ
wrap_int64 n =
    let low = n % int64_mod in if ltb max_int64 low then negsuc (int64_mod - low - 1) else pos low
