-- ===== src/Prelude/Align.antt =====
-- `x & ~(2^k - 1)`: a number brought down to a multiple of a power of two.
use Prim.Native.Nat.{ℕ, zero, suc, ◌*◌, ◌^◌, ◌+◌, ◌-◌, ◌/◌, ◌≤◌, ◌<◌, bit_and}
use mathlib.Core.Path.{◌≡◌, ◌∙◌, ap, sym, subst}
use native.Mathlib.Nat.{suc-mul, mul_assoc, pow-suc, one-le-pow, mod-eq_of_lt}
use native.Mathlib.Omega.{arith}
use dpa.Prelude.Bits.{bit_and-digit, bit_and-low_mask, complement}
use dpa.Prelude.Mod.{pow_add}

-- The multiple c of 2^k that is at most x, and less than 2^k below it
pub record IsBelow (k x r : ℕ) : Type 0 where
  pub times : ℕ
  pub multiple : r ≡ times * 2 ^ k
  pub low : r ≤ x
  pub high : x < r + 2 ^ k

doubled : (a k : ℕ) → a * 2 ^ suc k ≡ a * 2 ^ k * 2
doubled a k = ap (λ t. a * t) (pow-suc 2 k) ∙ sym (mul_assoc a (2 ^ k) 2)

bit_and-even : (x m : ℕ) → bit_and x (m * 2) ≡ bit_and (x / 2) m * 2
bit_and-even x m =
    let half : m * 2 / 2 ≡ m = omega arith in
    omega (arith, bit_and-digit x (m * 2), ap (bit_and (x / 2)) half)

bit_and-high_mask : (k w x : ℕ) → x < 2 ^ w * 2 ^ k → IsBelow k x (bit_and x ((2 ^ w - 1) * 2 ^ k))
bit_and-high_mask zero w x h =
    let same : bit_and x ((2 ^ w - 1) * 1) ≡ x =
      ap (bit_and x) (omega arith) ∙ bit_and-low_mask w x ∙ mod-eq_of_lt (omega (arith, h)) in
    record {
      times = x;
      multiple = omega (arith, same);
      low = omega (arith, same);
      high = omega (arith, same);
    }
bit_and-high_mask (suc k) w x h =
    let m = (2 ^ w - 1) * 2 ^ k in
    let r = bit_and-high_mask k w (x / 2) (omega (arith, h, doubled (2 ^ w) k)) in
    let e : bit_and x ((2 ^ w - 1) * 2 ^ suc k) ≡ bit_and (x / 2) m * 2 =
      ap (bit_and x) (doubled (2 ^ w - 1) k) ∙ bit_and-even x m in
    record {
      times = r.times;
      multiple = e ∙ ap (λ t. t * 2) r.multiple ∙ sym (doubled r.times k);
      low = omega (arith, e, r.low);
      high = omega (arith, e, r.high, pow-suc 2 k);
    }

-- `x & ~(2^k - 1)` on 64 bits
pub align_down :
    (k x : ℕ) → k ≤ 64 → x < 2 ^ 64 → IsBelow k x (bit_and x (complement 64 (2 ^ k - 1)))
align_down k x few small =
    let sum : 64 ≡ k + (64 - k) = omega (arith, few) in
    let whole : 2 ^ 64 ≡ 2 ^ (64 - k) * 2 ^ k = ap (λ t. 2 ^ t) sum ∙ pow_add k (64 - k) in
    let a = 2 ^ (64 - k) - 1 in
    let above : 2 ^ (64 - k) ≡ suc a = omega (arith, one-le-pow (64 - k) 2 (omega arith)) in
    let split : 2 ^ (64 - k) * 2 ^ k ≡ a * 2 ^ k + 2 ^ k =
      ap (λ t. t * 2 ^ k) above ∙ suc-mul a (2 ^ k) in
    let mask : complement 64 (2 ^ k - 1) ≡ a * 2 ^ k =
      omega (arith, whole, split, one-le-pow k 2 (omega arith)) in
    subst (λ t. IsBelow k x (bit_and x t)) (sym mask)
      (bit_and-high_mask k (64 - k) x (omega (arith, whole, small)))
