-- ===== src/Prelude/Xor.antt =====
-- Exclusive or at variables: one equation for the lowest digit, and that twice is nothing.
use Prim.Native.Nat.{ℕ, zero, suc, ◌+◌, ◌*◌, ◌/◌, ◌%◌, ◌≤◌, bit_xor, differ, bit_xor-bitwise}
use mathlib.Core.Path.{◌≡◌, refl, ap₂, ◌∙◌}
use native.Mathlib.Nat.{le_refl}
use native.Mathlib.Omega.{arith}
use dpa.Prelude.Bits.{low_digit}

bit_xor-zero : (y : ℕ) → bit_xor 0 y ≡ y
bit_xor-zero y = simp bit_xor-bitwise refl

bit_xor-digit : (x y : ℕ) → bit_xor x y ≡ bit_xor (x / 2) (y / 2) * 2 + differ (x % 2) (y % 2)
bit_xor-digit zero y = omega (arith, bit_xor-zero y, bit_xor-zero (y / 2))
bit_xor-digit (suc x) y = simp bit_xor-bitwise (low_digit (λ b. b) differ x y)

-- A binary digit is 0 or 1.
differ_small : (a b : ℕ) → a ≤ 1 → b ≤ 1 → (differ a b ≤ 1) × (differ a (differ a b) ≡ b)
differ_small zero b p q = (q, refl)
differ_small (suc zero) zero p q = (omega arith, refl)
differ_small (suc zero) (suc zero) p q = (omega arith, refl)
differ_small (suc zero) (suc (suc b)) p q = absurd (omega arith)
differ_small (suc (suc a)) b p q = absurd (omega arith)

xor_twice_le : (n x y : ℕ) → x ≤ n → bit_xor x (bit_xor x y) ≡ y
xor_twice_le n zero y h = bit_xor-zero _ ∙ bit_xor-zero y
xor_twice_le zero (suc x) y h = absurd (omega arith)
xor_twice_le (suc n) (suc x) y h =
    let z = bit_xor (suc x) y in
    let small = differ_small (suc x % 2) (y % 2) (omega arith) (omega arith) in
    let first = bit_xor-digit (suc x) y in
    let half : z / 2 ≡ bit_xor (suc x / 2) (y / 2) = omega arith in
    let low : z % 2 ≡ differ (suc x % 2) (y % 2) = omega arith in
    bit_xor-digit (suc x) z
    ∙ ap₂ (λ a b. bit_xor (suc x / 2) a * 2 + differ (suc x % 2) b) half low
    ∙ ap₂ (λ a b. a * 2 + b) (xor_twice_le n (suc x / 2) (y / 2) (omega arith)) small.1
    ∙ omega arith

-- Exclusive or with the same number twice changes nothing.
pub xor_twice : (x y : ℕ) → bit_xor x (bit_xor x y) ≡ y
xor_twice x y = xor_twice_le x x y (le_refl x)
