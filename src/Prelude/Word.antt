-- ===== src/Prelude/Word.antt =====
-- Fixed-width unsigned arithmetic. A signed 32-bit value is kept as its two's complement pattern.
use Prim.Native.Nat.{ℕ, ◌+◌, ◌-◌, ◌%◌, ◌^◌, ◌<◌, compare, Ordering}
use mathlib.Core.Path.{◌≡◌}
use mathlib.Core.Bool.{Bool, true, false}
use native.Mathlib.Omega.{arith}

abbrev pub u8 : ℕ → ℕ
u8 n = n % 2 ^ 8

abbrev pub u16 : ℕ → ℕ
u16 n = n % 2 ^ 16

abbrev pub u32 : ℕ → ℕ
u32 n = n % 2 ^ 32

abbrev pub u64 : ℕ → ℕ
u64 n = n % 2 ^ 64

abbrev pub add32 : ℕ → ℕ → ℕ
add32 a b = (a + b) % 2 ^ 32

-- The subtrahend is below 2 ^ 32.
abbrev pub sub32 : ℕ → ℕ → ℕ
sub32 a b = (a + 2 ^ 32 - b) % 2 ^ 32

abbrev pub below : ℕ → ℕ → Bool
below a b = elim (compare a b) [ Ordering.lt ↦ true | _ ↦ false ]

-- `a < b` of two int32_t patterns.
unfoldable pub ltb_i32 : ℕ → ℕ → Bool
ltb_i32 a b = below ((a + 2 ^ 31) % 2 ^ 32) ((b + 2 ^ 31) % 2 ^ 32)

-- Below 2 ^ 31 the pattern is the number.
pub ltb_i32_small : (a b : ℕ) → a < 2 ^ 31 → b < 2 ^ 31 → ltb_i32 a b ≡ below a b
unfolding ltb_i32
ltb_i32_small a b ha hb = ground arith
