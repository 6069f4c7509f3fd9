-- ===== src/Prelude/Mod.antt =====
-- Remainders by a variable: positions on a ring of n.
use Prim.Native.Nat.{ℕ, zero, suc, ◌*◌, ◌^◌, ◌+◌, ◌-◌, ◌%◌, ◌≤◌, ◌<◌}
use mathlib.Core.Path.{◌≡◌, ◌∙◌, ap}
use mathlib.Core.Logic.{◌⊎◌, inl, inr}
use native.Mathlib.Nat.{
  mod-eq_of_lt, mod-eq-sub-mod, mod-add-mod, add_assoc, add-zero, add-suc, pow-suc,
  pow-le-pow_right, one-le-pow, add-mul-mod_self_right,
}
use native.Mathlib.Decide.{dec_lt, dec_le}
use native.Mathlib.Omega.{arith}

-- Below twice the modulus the remainder takes at most one subtraction.
pub mod_cases : (x n : ℕ) → x < n + n → ((x % n ≡ x) × (x < n)) ⊎ ((x % n ≡ x - n) × (n ≤ x))
mod_cases x n h = elim (dec_lt x n) [
  | yes p ↦ inl (mod-eq_of_lt p, p)
  | no p ↦ inr (mod-eq-sub-mod (omega arith) ∙ mod-eq_of_lt (omega arith), omega arith)
]

-- Two advances are one.
pub advance_twice : (a k m n : ℕ) → ((a + k) % n + m) % n ≡ (a + (k + m)) % n
advance_twice a k m n = mod-add-mod (a + k) n m ∙ ap (λ t. t % n) (add_assoc a k m)

-- The distance from a to where k steps lead is k.
pub distance-advance : (a k n : ℕ) → a < n → k < n → ((a + k) % n + n - a) % n ≡ k
distance-advance a k n ha hk =
    ground (arith, mod_cases (a + k) n, mod_cases ((a + k) % n + n - a) n)

-- A step of k < n from a does not come back to a unless k is 0.
pub advance_self : (a k n : ℕ) → a < n → k < n → (a + k) % n ≡ a → k ≡ 0
advance_self a k n ha hk e = ground (arith, mod_cases (a + k) n)

-- Every index is some distance from every other.
pub advance-distance : (a b n : ℕ) → a < n → b < n → (a + (b + n - a) % n) % n ≡ b
advance-distance a b n ha hb =
    ground (arith, mod_cases (b + n - a) n, mod_cases (a + (b + n - a) % n) n)

pub pow_add : (a m : ℕ) → 2 ^ (a + m) ≡ 2 ^ m * 2 ^ a
pow_add a zero = ap (λ t. 2 ^ t) (add-zero a) ∙ omega arith
pow_add a (suc m) =
    ap (λ t. 2 ^ t) (add-suc a m)
    ∙ pow-suc 2 (a + m)
    ∙ omega (arith, ap (λ (t : ℕ). t * 2) (pow_add a m), ap (λ (t : ℕ). t * 2 ^ a) (pow-suc 2 m))

-- A power of two of at most 2 ^ 30 divides 2 ^ 32.
pow_factor : (k : ℕ) → 2 ^ k ≤ 2 ^ 30 → (c : ℕ) × (2 ^ 32 ≡ suc c * 2 ^ k)
pow_factor k h =
    (2 ^ (32 - k) - 1, ap (λ t. 2 ^ t) whole ∙ pow_add k (32 - k) ∙ ap (λ t. t * 2 ^ k) positive)
  where
    fits : k ≤ 30
    fits = elim (dec_le k 30) [
      | yes p ↦ p
      | no p ↦
          absurd
            (omega (arith, pow-le-pow_right {n = 2} (omega arith) {i = 31} {j = k} (omega arith)))
    ]

    whole : 32 ≡ k + (32 - k)
    whole = omega (arith, fits)

    positive : 2 ^ (32 - k) ≡ suc (2 ^ (32 - k) - 1)
    positive = omega (arith, one-le-pow (32 - k) 2 (omega arith))

-- The distance between two indices survives 32-bit wrapping: `(e - b) & mask`.
pub wrapped_distance :
    (k e b : ℕ)
    → 2 ^ k ≤ 2 ^ 30
    → e < 2 ^ k
    → b < 2 ^ k
    → (e + 2 ^ 32 - b) % 2 ^ 32 % 2 ^ k ≡ (e + 2 ^ k - b) % 2 ^ k
wrapped_distance k e b h he hb = elim (dec_le b e) [
  | yes p ↦
      ground (
        arith,
        mod_cases (e + 2 ^ k - b) (2 ^ k),
        mod-eq_of_lt {n = e - b} {m = 2 ^ k} (omega arith),
      )
  | no p ↦
      let (c, f) = pow_factor k h in
      let split : (e + 2 ^ 32 - b) % 2 ^ 32 ≡ (e + 2 ^ k - b) + c * 2 ^ k = omega arith in
      ap (λ t. t % 2 ^ k) split ∙ add-mul-mod_self_right (e + 2 ^ k - b) c (2 ^ k)
]
