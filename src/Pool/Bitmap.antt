-- ===== src/Pool/Bitmap.antt =====
-- The bitmap of kernel/dpa_mem.c: which objects are free, how many, and what clearing and setting
-- one bit does to that.
use dpa.Prelude.{
  ℕ, zero, suc, ◌+◌, ◌*◌, ◌/◌, ◌%◌, ◌^◌, ◌≤◌, ◌<◌, ◌≡◌, ◌≢◌, refl, ap, sym, ◌∙◌, arith, bit_and,
  bit_or, get_or, ne→==_false,
}
use native.Mathlib.Nat.{pow-suc, one-le-pow, mod-eq_of_lt, pow-le-pow_right}
use native.Mathlib.Decide.{ℕ_discrete, dec_lt}
use dpa.Prelude.Bits.{
  bit, bit-le-one, bit-bit_and, bit-bit_or, bit-pow_self, bit-pow_ne, complement, bit-complement,
  bit_and-pow,
}
use dpa.Prelude.Word.{u32, add32}
use dpa.Pool.{ObjPool, find_bit}

-- 1 for a free object, 0 for one in use.
abbrev pub is_free : ObjPool → ℕ → ℕ
is_free p i = bit (get_or p.bitmap (i / 32) 0) (i % 32)

pub is_free-at :
    (p : ObjPool) (i t : ℕ) → t < 32 → is_free p (i * 32 + t) ≡ bit (get_or p.bitmap i 0) t
is_free-at p i t h =
    let q : (i * 32 + t) / 32 ≡ i = omega arith in
    let r : (i * 32 + t) % 32 ≡ t = omega arith in
    ap (λ x. bit (get_or p.bitmap x 0) ((i * 32 + t) % 32)) q ∙ ap (bit (get_or p.bitmap i 0)) r

abbrev pub count : (ℕ → ℕ) → ℕ → ℕ
count f zero = 0
count f (suc n) = f n + count f n

pub count-same : (f g : ℕ → ℕ) (n : ℕ) → ((m : ℕ) → m < n → f m ≡ g m) → count f n ≡ count g n
count-same f g zero h = refl
count-same f g (suc n) h =
    omega (arith, h n (omega arith), count-same f g n (λ m lt. h m (omega arith)))

-- Two counts that differ at one place only.
pub count-one_more :
    (f g : ℕ → ℕ) (n k : ℕ)
    → k < n
    → f k ≡ 0
    → g k ≡ 1
    → ((m : ℕ) → m ≢ k → f m ≡ g m)
    → count g n ≡ suc (count f n)
count-one_more f g zero k lt fk gk same = absurd (omega arith)
count-one_more f g (suc n) k lt fk gk same = elim (ℕ_discrete n k) [
  | yes e ↦
      let below : count f n ≡ count g n =
        count-same f g n (λ m h. same m (λ em. absurd (omega (arith, em, e)))) in
      omega (arith, below, ap f e, ap g e)
  | no ne ↦ omega (arith, same n ne, count-one_more f g n k (grind arith) fk gk same)
]

pub count-le : (f : ℕ → ℕ) (n : ℕ) → ((m : ℕ) → f m ≤ 1) → count f n ≤ n
count-le f zero h = omega arith
count-le f (suc n) h = omega (arith, h n, count-le f n h)

-- Where something is counted there is a first place that counts.
pub first_counted :
    (f : ℕ → ℕ) (n : ℕ)
    → 0 < count f n
    → (k : ℕ) × (k < n) × (f k ≢ 0) × ((m : ℕ) → m < k → f m ≡ 0)
first_counted f zero h = absurd (omega arith)
first_counted f (suc n) h = elim (dec_lt 0 (count f n)) [
  | yes p ↦ let (k, lt, here, before) = first_counted f n p in (k, (omega arith), here, before)
  | no p ↦
      (n, (omega arith), (λ e. omega (arith, e)), (λ m lt. none_counted f n (omega arith) m lt))
]
  where
    none_counted : (f : ℕ → ℕ) (n : ℕ) → count f n ≡ 0 → (m : ℕ) → m < n → f m ≡ 0
    none_counted f zero e m lt = absurd (omega arith)
    none_counted f (suc n) e m lt = elim (ℕ_discrete m n) [
      | yes em ↦ ap f em ∙ omega arith
      | no ne ↦ none_counted f n (omega arith) m (grind arith)
    ]

-- A word without bits is 0.
pub no_bits : (k w : ℕ) → w < 2 ^ k → ((i : ℕ) → i < k → bit w i ≡ 0) → w ≡ 0
no_bits zero w h none = omega arith
no_bits (suc k) w h none =
    let half : w / 2 ≡ 0 =
      no_bits k (w / 2) (omega (arith, pow-suc 2 k)) (λ i lt. none (suc i) (omega arith)) in
    omega (arith, none 0 (omega arith), half)

pub pow_small : (t : ℕ) → t < 32 → 2 ^ t < 2 ^ 32
pow_small t h =
    let le : 2 ^ t ≤ 2 ^ 31 = pow-le-pow_right {n = 2} (omega arith) {j = 31} (omega arith) in
    omega arith

-- The inner loop of dpa_obj_malloc stops at the lowest bit.
pub find_bit-lowest :
    (n cur j t : ℕ)
    → j ≤ t
    → t < j + n
    → t < 32
    → bit cur t ≡ 1
    → ((m : ℕ) → m < t → bit cur m ≡ 0)
    → find_bit n cur j (2 ^ j) ≡ (t, 2 ^ t)
unfolding find_bit
find_bit-lowest zero cur j t le lt small here before = absurd (omega arith)
find_bit-lowest (suc n) cur j t le lt small here before = elim (ℕ_discrete j t) [
  | yes e ↦
      let power = one-le-pow j 2 (omega arith) in
      let value : bit_and cur (2 ^ j) ≡ 1 * 2 ^ j =
        bit_and-pow cur j ∙ ap (λ b. b * 2 ^ j) (ap (bit cur) e ∙ here) in
      let found : bit_and cur (2 ^ j) ≢ 0 = λ z. omega (arith, z, value, power) in
      rw (ne→==_false (bit_and cur (2 ^ j)) 0 found) (rw e refl)
  | no ne ↦
      let absent : bit_and cur (2 ^ j) ≡ 0 =
        bit_and-pow cur j ∙ ap (λ b. b * 2 ^ j) (before j (grind arith)) ∙ omega arith in
      let next : u32 (2 ^ j * 2) ≡ 2 ^ suc j =
        ap u32 (sym (pow-suc 2 j)) ∙ mod-eq_of_lt (pow_small (suc j) (grind arith)) in
      let step : add32 j 1 ≡ suc j = omega arith in
      rw (absent, next, step)
        (find_bit-lowest n cur (suc j) t (grind arith) (omega arith) small here before)
]

-- Clearing bit t of a word, and setting it.
pub bit-clear_self : (cur t : ℕ) → t < 32 → bit (bit_and cur (complement 32 (2 ^ t))) t ≡ 0
bit-clear_self cur t h = omega (
  arith,
  bit-bit_and cur (complement 32 (2 ^ t)) t,
  bit-complement 32 (2 ^ t) t (pow_small t h) h,
  bit-pow_self t,
)

pub bit-clear_ne :
    (cur t m : ℕ)
    → m < 32
    → t < 32
    → m ≢ t
    → bit (bit_and cur (complement 32 (2 ^ t))) m ≡ bit cur m
bit-clear_ne cur t m h small ne = omega (
  arith,
  bit-bit_and cur (complement 32 (2 ^ t)) m,
  bit-complement 32 (2 ^ t) m (pow_small t small) h,
  bit-pow_ne t m (λ e. ne (sym e)),
  bit-le-one cur m,
)

pub bit-set_self : (cur t : ℕ) → bit (bit_or cur (2 ^ t)) t ≡ 1
bit-set_self cur t = omega (arith, bit-bit_or cur (2 ^ t) t, bit-pow_self t, bit-le-one cur t)

pub bit-set_ne : (cur t m : ℕ) → m ≢ t → bit (bit_or cur (2 ^ t)) m ≡ bit cur m
bit-set_ne cur t m ne = omega (arith, bit-bit_or cur (2 ^ t) m, bit-pow_ne t m (λ e. ne (sym e)))
