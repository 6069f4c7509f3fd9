-- ===== src/Pool/Take.antt =====
-- dpa_obj_malloc and dpa_obj_free of kernel/dpa_mem.c on a pool whose counter agrees with its
-- bitmap.
use dpa.Prelude.{
  ℕ, zero, suc, ◌+◌, ◌-◌, ◌*◌, ◌/◌, ◌%◌, ◌^◌, ◌≤◌, ◌<◌, ◌≡◌, ◌≢◌, refl, ap, sym, ◌∙◌, arith,
  bit_and, bit_or, get_or, set, length, get_or-set_self, List, [], ◌∷◌, get_or-set_ne, length-set,
}
use Prim.Native.Nat.{bit_and-bitwise}
use native.Mathlib.Nat.{pow-suc}
use native.Mathlib.Decide.{ℕ_discrete}
use dpa.Prelude.Bits.{bit_and-digit, bit_or-digit, bit, complement}
use dpa.Pool.{ObjPool, no_item}
use dpa.Pool.Bitmap.{
  is_free, count, count-one_more, bit-clear_self, pow_small, bit-clear_ne, bit-set_self, bit-set_ne,
}

-- The counter is the number of free objects, objects 0 and 1 are never free, and every object has
-- an address. Bits past the last object may be set.
pub record IsPool (p : ObjPool) : Type 0 where
  pub total_small : p.obj_total < 2 ^ 31
  pub total_two : 2 ≤ p.obj_total
  pub words : p.obj_total ≤ length p.bitmap * 32
  pub entries : length p.addr_tbl ≡ p.obj_total
  pub counted : count (is_free p) p.obj_total ≡ p.obj_free
  pub word_small : (i : ℕ) → get_or p.bitmap i 0 < 2 ^ 32
  pub zero_kept : is_free p 0 ≡ 0
  pub one_kept : is_free p 1 ≡ 0
  pub has_addr : (i : ℕ) → i < p.obj_total → (get_or p.addr_tbl i no_item).vaddr ≢ 0

-- The pool with word i of the bitmap and the counter changed.
abbrev with_word : ObjPool → ℕ → ℕ → ℕ → ObjPool
with_word p i w n = record p { bitmap = set p.bitmap i w; obj_free = n }

is_free-other_word :
    (p : ObjPool) (i w n m : ℕ) → i ≢ m / 32 → is_free (with_word p i w n) m ≡ is_free p m
is_free-other_word p i w n m h = ap (λ t. bit t (m % 32)) (get_or-set_ne p.bitmap i (m / 32) w 0 h)

is_free-this_word :
    (p : ObjPool) (i w n m : ℕ)
    → i < length p.bitmap
    → i ≡ m / 32
    → is_free (with_word p i w n) m ≡ bit w (m % 32)
is_free-this_word p i w n m h e =
    ap (λ t. bit t (m % 32))
      (ap (λ t. get_or (set p.bitmap i w) t 0) (sym e) ∙ get_or-set_self p.bitmap i w 0 h)

-- The pool without object k, and with it again.
abbrev pub taken : ObjPool → ℕ → ObjPool
taken p k =
    with_word p (k / 32) (bit_and (get_or p.bitmap (k / 32) 0) (complement 32 (2 ^ (k % 32))))
      (p.obj_free - 1)

abbrev pub returned : ObjPool → ℕ → ObjPool
returned p k =
    with_word p (k / 32) (bit_or (get_or p.bitmap (k / 32) 0) (2 ^ (k % 32))) (p.obj_free + 1)

module _ (p : ObjPool) (k : ℕ) (inside : k / 32 < length p.bitmap) where
  pub is_free-taken_self : is_free (taken p k) k ≡ 0
  is_free-taken_self =
      is_free-this_word p _ _ (p.obj_free - 1) k inside refl
      ∙ bit-clear_self (get_or p.bitmap (k / 32) 0) (k % 32) (omega arith)

  pub is_free-taken_ne : (m : ℕ) → m ≢ k → is_free (taken p k) m ≡ is_free p m
  is_free-taken_ne m ne = elim (ℕ_discrete (k / 32) (m / 32)) [
    | yes e ↦
        is_free-this_word p _ _ (p.obj_free - 1) m inside e
        ∙ bit-clear_ne (get_or p.bitmap (k / 32) 0) (k % 32) (m % 32) (omega arith) (omega arith)
            (λ em. ne (omega (arith, e, em)))
        ∙ ap (λ t. bit (get_or p.bitmap t 0) (m % 32)) e
    | no h ↦ is_free-other_word p _ _ (p.obj_free - 1) m h
  ]

  pub is_free-returned_self : is_free (returned p k) k ≡ 1
  is_free-returned_self =
      is_free-this_word p _ _ (p.obj_free + 1) k inside refl
      ∙ bit-set_self (get_or p.bitmap (k / 32) 0) (k % 32)

  pub is_free-returned_ne : (m : ℕ) → m ≢ k → is_free (returned p k) m ≡ is_free p m
  is_free-returned_ne m ne = elim (ℕ_discrete (k / 32) (m / 32)) [
    | yes e ↦
        is_free-this_word p _ _ (p.obj_free + 1) m inside e
        ∙ bit-set_ne (get_or p.bitmap (k / 32) 0) (k % 32) (m % 32)
            (λ em. ne (omega (arith, e, em)))
        ∙ ap (λ t. bit (get_or p.bitmap t 0) (m % 32)) e
    | no h ↦ is_free-other_word p _ _ (p.obj_free + 1) m h
  ]

bit_and-lt_pow : (k x y : ℕ) → x < 2 ^ k → bit_and x y < 2 ^ k
bit_and-lt_pow zero zero y h = simp bit_and-bitwise (omega arith)
bit_and-lt_pow zero (suc x) y h = absurd (omega arith)
bit_and-lt_pow (suc k) x y h = omega (
  arith,
  bit_and-digit x y,
  pow-suc 2 k,
  bit_and-lt_pow k (x / 2) (y / 2) (omega (arith, pow-suc 2 k)),
)

bit_or-lt_pow : (k x y : ℕ) → x < 2 ^ k → y < 2 ^ k → bit_or x y < 2 ^ k
bit_or-lt_pow zero zero zero h g = omega arith
bit_or-lt_pow zero zero (suc y) h g = absurd (omega arith)
bit_or-lt_pow zero (suc x) y h g = absurd (omega arith)
bit_or-lt_pow (suc k) x y h g = omega (
  arith,
  bit_or-digit x y,
  pow-suc 2 k,
  bit_or-lt_pow k (x / 2) (y / 2) (omega (arith, pow-suc 2 k)) (omega (arith, pow-suc 2 k)),
)

words-set :
    (ws : List ℕ) (i w : ℕ)
    → w < 2 ^ 32
    → ((m : ℕ) → get_or ws m 0 < 2 ^ 32)
    → (m : ℕ) → get_or (set ws i w) m 0 < 2 ^ 32
words-set [] i w h all m = omega arith
words-set (x ∷ ws) zero w h all zero = h
words-set (x ∷ ws) zero w h all (suc m) = all (suc m)
words-set (x ∷ ws) (suc i) w h all zero = all zero
words-set (x ∷ ws) (suc i) w h all (suc m) = words-set ws i w h (λ m. all (suc m)) m

pub taken-IsPool :
    (p : ObjPool) (k : ℕ) → IsPool p → k < p.obj_total → is_free p k ≡ 1 → IsPool (taken p k)
taken-IsPool p k w lt free =
    let inside : k / 32 < length p.bitmap = omega (arith, w.words) in
    let fewer =
      count-one_more (is_free (taken p k)) (is_free p) p.obj_total k lt
        (is_free-taken_self p k inside) free (is_free-taken_ne p k inside) in
    let keeps : (m : ℕ) → is_free p m ≡ 0 → is_free (taken p k) m ≡ 0 = λ m e.
      is_free-taken_ne p k inside m (λ same. absurd (omega (arith, ap (is_free p) same, e, free)))
      ∙ e in
    record {
      total_small = w.total_small;
      total_two = w.total_two;
      words =
          rw
            (length-set p.bitmap (k / 32)
              (bit_and (get_or p.bitmap (k / 32) 0) (complement 32 (2 ^ (k % 32)))))
            w.words;
      entries = w.entries;
      counted = omega (arith, fewer, w.counted);
      word_small =
          words-set p.bitmap (k / 32) _ (bit_and-lt_pow 32 _ _ (w.word_small (k / 32)))
            w.word_small;
      zero_kept = keeps 0 w.zero_kept;
      one_kept = keeps 1 w.one_kept;
      has_addr = w.has_addr;
    }

pub returned-IsPool :
    (p : ObjPool) (k : ℕ)
    → IsPool p
    → 2 ≤ k
    → k < p.obj_total
    → is_free p k ≡ 0
    → IsPool (returned p k)
returned-IsPool p k w two lt used =
    let inside : k / 32 < length p.bitmap = omega (arith, w.words) in
    let more =
      count-one_more (is_free p) (is_free (returned p k)) p.obj_total k lt used
        (is_free-returned_self p k inside) (λ m ne. sym (is_free-returned_ne p k inside m ne)) in
    let keeps : (m : ℕ) → m < 2 → is_free p m ≡ 0 → is_free (returned p k) m ≡ 0 =
      λ m h e. is_free-returned_ne p k inside m (λ same. absurd (omega (arith, same))) ∙ e in
    record {
      total_small = w.total_small;
      total_two = w.total_two;
      words =
          rw (length-set p.bitmap (k / 32) (bit_or (get_or p.bitmap (k / 32) 0) (2 ^ (k % 32))))
            w.words;
      entries = w.entries;
      counted = omega (arith, more, w.counted);
      word_small =
          words-set p.bitmap (k / 32) _
            (bit_or-lt_pow 32 _ _ (w.word_small (k / 32)) (pow_small (k % 32) (omega arith)))
            w.word_small;
      zero_kept = keeps 0 (omega arith) w.zero_kept;
      one_kept = keeps 1 (omega arith) w.one_kept;
      has_addr = w.has_addr;
    }
