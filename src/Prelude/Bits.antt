-- ===== src/Prelude/Bits.antt =====
-- `&` and `|` at variables. The native operations stand for a recursion on binary digits with
-- fuel (`digits`); here that becomes one equation for the lowest digit, and from it the laws of
-- low masks, of a single bit, and of setting and clearing a bit.
use Prim.Native.Nat.{
  ℕ, zero, suc, ◌+◌, ◌-◌, ◌*◌, ◌/◌, ◌%◌, ◌^◌, ◌≤◌, ◌<◌, min, max, digits, bitwise, bit_and, bit_or,
  bit_and-bitwise, bit_or-bitwise,
}
use mathlib.Core.Path.{◌≡◌, refl, ap, ◌∙◌}
use mathlib.Core.Logic.{◌≢◌}
use native.Mathlib.Nat.{
  pow-suc, one-le-pow, le_refl, mod-eq_of_lt, mod-lt, div-add-mod', add-mul-mod_self_right,
}
use native.Mathlib.Omega.{arith}

-- Fuel beyond the first argument changes nothing.
enough_fuel :
    (z : ℕ → ℕ) (g : ℕ → ℕ → ℕ) (k l x y : ℕ) → x ≤ k → x ≤ l → digits z g k x y ≡ digits z g l x y
enough_fuel z g zero zero x y p q = refl
enough_fuel z g zero (suc l) zero y p q = refl
enough_fuel z g zero (suc l) (suc x) y p q = absurd (omega arith)
enough_fuel z g (suc k) zero zero y p q = refl
enough_fuel z g (suc k) zero (suc x) y p q = absurd (omega arith)
enough_fuel z g (suc k) (suc l) zero y p q = refl
enough_fuel z g (suc k) (suc l) (suc x) y p q =
    rw (enough_fuel z g k l (suc x / 2) (y / 2) (omega arith) (omega arith))

pub low_digit :
    (z : ℕ → ℕ) (g : ℕ → ℕ → ℕ) (x y : ℕ)
    → bitwise z g (suc x) y ≡ bitwise z g (suc x / 2) (y / 2) * 2 + g (suc x % 2) (y % 2)
low_digit z g x y =
    omega (arith, enough_fuel z g x (suc x / 2) (suc x / 2) (y / 2) (omega arith) (le_refl _))

pub bit_and-digit : (x y : ℕ) → bit_and x y ≡ bit_and (x / 2) (y / 2) * 2 + min (x % 2) (y % 2)
bit_and-digit zero y = simp bit_and-bitwise (omega arith)
bit_and-digit (suc x) y = simp bit_and-bitwise (low_digit (λ b. 0) min x y)

pub bit_or-digit : (x y : ℕ) → bit_or x y ≡ bit_or (x / 2) (y / 2) * 2 + max (x % 2) (y % 2)
bit_or-digit zero y = simp bit_or-bitwise (omega arith)
bit_or-digit (suc x) y = simp bit_or-bitwise (low_digit (λ b. b) max x y)

-- A mask of k ones keeps the remainder.
bit_and-zero_le : (n x : ℕ) → x ≤ n → bit_and x 0 ≡ 0
bit_and-zero_le n zero h = simp bit_and-bitwise refl
bit_and-zero_le zero (suc x) h = absurd (omega arith)
bit_and-zero_le (suc n) (suc x) h =
    omega (arith, bit_and-digit (suc x) 0, bit_and-zero_le n (suc x / 2) (omega arith))

mod_double : (x m : ℕ) → 0 < m → x % (m * 2) ≡ x / 2 % m * 2 + x % 2
mod_double x m h =
    ap (λ t. t % (m * 2)) split
    ∙ add-mul-mod_self_right (x / 2 % m * 2 + x % 2) (x / 2 / m) (m * 2)
    ∙ mod-eq_of_lt (omega (arith, mod-lt (x / 2) h))
  where
    split : x ≡ x / 2 % m * 2 + x % 2 + x / 2 / m * (m * 2)
    split = omega (arith, div-add-mod' (x / 2) m)

pub bit_and-low_mask : (k x : ℕ) → bit_and x (2 ^ k - 1) ≡ x % 2 ^ k
bit_and-low_mask zero x = omega (arith, bit_and-zero_le x x (le_refl x))
bit_and-low_mask (suc k) x =
    rw (pow-suc 2 k, mod_double x (2 ^ k) (one-le-pow k 2 (omega arith)))
      (ground
        (arith, bit_and-digit x (2 ^ k * 2 - 1), halves, bit_and-low_mask k (x / 2), positive))
  where
    positive : 1 ≤ 2 ^ k
    positive = one-le-pow k 2 (omega arith)

    halves : (2 ^ k * 2 - 1) / 2 ≡ 2 ^ k - 1
    halves = omega (arith, positive)

-- Bit i of x.
abbrev pub bit : ℕ → ℕ → ℕ
bit x zero = x % 2
bit x (suc i) = bit (x / 2) i

pub bit-le-one : (x i : ℕ) → bit x i ≤ 1
bit-le-one x zero = omega arith
bit-le-one x (suc i) = bit-le-one (x / 2) i

pub bit-zero : (i : ℕ) → bit 0 i ≡ 0
bit-zero zero = refl
bit-zero (suc i) = bit-zero i

pub bit-bit_and : (x y i : ℕ) → bit (bit_and x y) i ≡ min (bit x i) (bit y i)
bit-bit_and x y zero = omega (arith, bit_and-digit x y)
bit-bit_and x y (suc i) = ap (λ t. bit t i) halves ∙ bit-bit_and (x / 2) (y / 2) i
  where
    halves : bit_and x y / 2 ≡ bit_and (x / 2) (y / 2)
    halves = omega (arith, bit_and-digit x y)

pub bit-bit_or : (x y i : ℕ) → bit (bit_or x y) i ≡ max (bit x i) (bit y i)
bit-bit_or x y zero = omega (arith, bit_or-digit x y)
bit-bit_or x y (suc i) = ap (λ t. bit t i) halves ∙ bit-bit_or (x / 2) (y / 2) i
  where
    halves : bit_or x y / 2 ≡ bit_or (x / 2) (y / 2)
    halves = omega (arith, bit_or-digit x y)

pub bit-pow_self : (j : ℕ) → bit (2 ^ j) j ≡ 1
bit-pow_self zero = refl
bit-pow_self (suc j) = ap (λ t. bit t j) halves ∙ bit-pow_self j
  where
    halves : 2 ^ suc j / 2 ≡ 2 ^ j
    halves = omega (arith, pow-suc 2 j)

pub bit-pow_ne : (j i : ℕ) → j ≢ i → bit (2 ^ j) i ≡ 0
bit-pow_ne zero zero h = absurd (h refl)
bit-pow_ne zero (suc i) h = bit-zero i
bit-pow_ne (suc j) zero h = omega (arith, pow-suc 2 j)
bit-pow_ne (suc j) (suc i) h = ap (λ t. bit t i) halves ∙ bit-pow_ne j i (λ e. h (ap suc e))
  where
    halves : 2 ^ suc j / 2 ≡ 2 ^ j
    halves = omega (arith, pow-suc 2 j)

-- `~x` on w bits.
abbrev pub complement : ℕ → ℕ → ℕ
complement w x = 2 ^ w - 1 - x

pub bit-complement : (w x i : ℕ) → x < 2 ^ w → i < w → bit (complement w x) i + bit x i ≡ 1
bit-complement zero x i h lt = elim lt [ ]
bit-complement (suc w) x zero h lt = omega (arith, pow-suc 2 w)
bit-complement (suc w) x (suc i) h lt =
    rw halves (bit-complement w (x / 2) i (omega (arith, pow-suc 2 w)) (omega arith))
  where
    halves : complement (suc w) x / 2 ≡ complement w (x / 2)
    halves = omega (arith, pow-suc 2 w)

-- `x & (1 << j)` is zero exactly when bit j of x is.
pub bit_and-pow : (x j : ℕ) → bit_and x (2 ^ j) ≡ bit x j * 2 ^ j
bit_and-pow x zero = omega (arith, bit_and-digit x 1, bit_and-zero_le (x / 2) (x / 2) (le_refl _))
bit_and-pow x (suc j) =
    rw (pow-suc 2 j) (ground (arith, bit_and-digit x (2 ^ j * 2), halves, bit_and-pow (x / 2) j))
  where
    halves : 2 ^ j * 2 / 2 ≡ 2 ^ j
    halves = omega arith
