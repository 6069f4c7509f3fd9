-- ===== src/Pool/Find.antt =====
-- The loop of dpa_obj_malloc of kernel/dpa_mem.c finds the first free object, and dpa_obj_free puts
-- an object back.
use dpa.Prelude.{
  ℕ, zero, suc, ◌+◌, ◌-◌, ◌*◌, ◌/◌, ◌%◌, ◌^◌, ◌≤◌, ◌<◌, ◌≡◌, ◌≢◌, refl, ap, sym, subst, ◌∙◌, some,
  arith, get_or, get_elem?, length, ne→==_false, get_elem?-eq-get_or, le→ltb_false,
}
use native.Mathlib.Decide.{ℕ_discrete}
use dpa.Prelude.Bits.{bit, bit-le-one, bit-zero}
use dpa.Prelude.Word.{u32, add32, sub32}
use dpa.Pool.{
  ObjPool, no_item, find_bit, grab, grab_at, with_addr, search, search_fuel, obj_malloc,
  obj_free_index,
}
use dpa.Pool.Bitmap.{is_free, is_free-at, count-le, first_counted, no_bits, find_bit-lowest}
use dpa.Pool.Take.{
  IsPool, taken, returned, taken-IsPool, returned-IsPool, is_free-taken_self, is_free-taken_ne,
  is_free-returned_self, is_free-returned_ne,
}

k_split : (k : ℕ) → k / 32 * 32 + k % 32 ≡ k
k_split k = omega arith

is_free-le : (p : ObjPool) (m : ℕ) → is_free p m ≤ 1
is_free-le p m = bit-le-one (get_or p.bitmap (m / 32) 0) (m % 32)

-- Object k is the first free one.
pub record IsFirst (p : ObjPool) (k : ℕ) : Type 0 where
  pub inside : k < p.obj_total
  pub free : is_free p k ≡ 1
  pub before : (m : ℕ) → m < k → is_free p m ≡ 0

module _ (p : ObjPool) (k : ℕ) (w : IsPool p) (first : IsFirst p k) where
  inside_word : k / 32 < length p.bitmap
  inside_word = omega (arith, w.words, first.inside)

  empty_word : (i : ℕ) → i < k / 32 → get_or p.bitmap i 0 ≡ 0
  empty_word i h =
      no_bits 32 _ (w.word_small i)
        (λ t lt. sym (is_free-at p i t lt) ∙ first.before (i * 32 + t) (omega arith))

  lowest : find_bit 32 (get_or p.bitmap (k / 32) 0) 0 1 ≡ (k % 32, 2 ^ (k % 32))
  lowest =
      find_bit-lowest 32 _ 0 (k % 32) (omega arith) (omega arith) (omega arith) first.free (λ m lt.
        sym (is_free-at p (k / 32) m (omega arith)) ∙ first.before (k / 32 * 32 + m) (omega arith))

  full_word : get_or p.bitmap (k / 32) 0 ≢ 0
  full_word e = omega (arith, first.free, ap (λ t. bit t (k % 32)) e, bit-zero (k % 32))

  here : get_elem? p.addr_tbl (u32 (k / 32 * 32 + k % 32)) ≡ some (get_or p.addr_tbl k no_item)
  here =
      let same : u32 (k / 32 * 32 + k % 32) ≡ k =
        omega (arith, first.inside, w.total_small, k_split k) in
      ap (get_elem? p.addr_tbl) same
      ∙ get_elem?-eq-get_or p.addr_tbl k no_item (omega (arith, w.entries, first.inside))

  module _ (pos : 0 < p.obj_free) where
    one_less : sub32 p.obj_free 1 ≡ p.obj_free - 1
    one_less =
        omega (arith, w.counted, w.total_small, count-le (is_free p) p.obj_total (is_free-le p))

    grab-first :
        grab p (k / 32) (get_or p.bitmap (k / 32) 0)
        ≡ some (taken p k, (get_or p.addr_tbl k no_item).vaddr)
    unfolding grab
    grab-first = rw lowest (unfold grab_at with_addr in rw (here, one_less) refl)

    search-first :
        (n i : ℕ)
        → i ≤ k / 32
        → k / 32 < i + n
        → search n p i ≡ some (taken p k, (get_or p.addr_tbl k no_item).vaddr)
    unfolding search
    search-first zero i le lt = absurd (omega arith)
    search-first (suc n) i le lt = elim (ℕ_discrete i (k / 32)) [
      | yes e ↦
          let word = get_elem?-eq-get_or p.bitmap (k / 32) 0 inside_word in
          subst (λ t. search (suc n) p t ≡ some (taken p k, (get_or p.addr_tbl k no_item).vaddr))
            (sym e)
            (rw
              (
                word,
                ne→==_false (get_or p.bitmap (k / 32) 0) 0 full_word,
                grab-first,
                ne→==_false (get_or p.addr_tbl k no_item).vaddr 0 (w.has_addr k first.inside),
              )
              refl)
      | no ne ↦
          let lower : i < k / 32 = grind arith in
          let next : add32 i 1 ≡ suc i = omega (arith, first.inside, w.total_small) in
          rw
            (
              get_elem?-eq-get_or p.bitmap i 0 (omega (arith, inside_word)),
              empty_word i lower,
              next,
            )
            (search-first n (suc i) (omega arith) (omega arith))
    ]

exists_IsFirst : (p : ObjPool) → IsPool p → 0 < p.obj_free → (k : ℕ) × IsFirst p k
exists_IsFirst p w pos =
    let (k, lt, here, before) =
      first_counted (is_free p) p.obj_total (omega (arith, pos, w.counted)) in
    (k, record { inside = lt; free = grind (arith, is_free-le p k, here); before = before })

-- What dpa_obj_malloc does: the first free object, of index at least 2, is taken, or the pool
-- stays and the result is NULL.
pub Takes : ObjPool → ObjPool → ℕ → Type 0
Takes p q addr =
    (k : ℕ) × IsFirst p k
    × (2 ≤ k)
    × (addr ≡ (get_or p.addr_tbl k no_item).vaddr)
    × (addr ≢ 0)
    × (is_free q k ≡ 0)
    × ((m : ℕ) → m ≢ k → is_free q m ≡ is_free p m)
    × (q.obj_free + 1 ≡ p.obj_free)

two_kept : (p : ObjPool) (k : ℕ) → IsPool p → is_free p k ≡ 1 → 2 ≤ k
two_kept p zero w free = absurd (omega (arith, w.zero_kept, free))
two_kept p (suc zero) w free = absurd (omega (arith, w.one_kept, free))
two_kept p (suc (suc k)) w free = omega arith

malloc_some :
    (p : ObjPool) (len : ℕ)
    → IsPool p
    → len ≤ p.obj_size
    → 0 < p.obj_free
    → (k : ℕ) × IsFirst p k
      × (obj_malloc p len ≡ some (taken p k, (get_or p.addr_tbl k no_item).vaddr))
unfolding obj_malloc
malloc_some p len w fits pos =
    let (k, first) = exists_IsFirst p w pos in
    let enough : k / 32 < 0 + search_fuel p = omega (arith, inside_word p k w first) in
    (
      k,
      first,
      rw (le→ltb_false _ _ fits, ne→==_false p.obj_free 0 (λ e. omega (arith, e, pos)))
          (search-first p k w first pos (search_fuel p) 0 (omega arith) enough),
    )

-- On a pool whose counter agrees with its bitmap, dpa_obj_malloc for an object that fits, while
-- any is free, ends and stays within the bitmap; it takes the first free object, which is not
-- object 0 or 1, returns its address, which is not NULL, keeps all others as they are, counts one
-- less, and leaves such a pool.
pub obj_malloc-Takes :
    (p : ObjPool) (len : ℕ)
    → IsPool p
    → len ≤ p.obj_size
    → 0 < p.obj_free
    → (q : ObjPool) × (addr : ℕ) × (obj_malloc p len ≡ some (q, addr)) × IsPool q × Takes p q addr
unfolding Takes
obj_malloc-Takes p len w fits pos =
    let (k, first, result) = malloc_some p len w fits pos in
    let inside = inside_word p k w first in
    (
      taken p k,
      _,
      result,
      taken-IsPool p k w first.inside first.free,
      (
        k,
        first,
        two_kept p k w first.free,
        refl,
        w.has_addr k first.inside,
        is_free-taken_self p k inside,
        is_free-taken_ne p k inside,
        omega (arith, pos),
      ),
    )

pub free-returned :
    (p : ObjPool) (k : ℕ) → IsPool p → k < p.obj_total → obj_free_index p k ≡ returned p k
unfolding obj_free_index
free-returned p k w lt =
    let few : add32 p.obj_free 1 ≡ p.obj_free + 1 =
      omega (arith, w.counted, w.total_small, count-le (is_free p) p.obj_total (is_free-le p)) in
    rw (few) (ground (arith))

-- dpa_obj_free of an object in use, of index at least 2, makes it free, keeps all others as they
-- are, counts one more, and leaves a pool whose counter agrees with its bitmap.
pub obj_free_index-returns :
    (p : ObjPool) (k : ℕ)
    → IsPool p
    → 2 ≤ k
    → k < p.obj_total
    → is_free p k ≡ 0
    → let q = obj_free_index p k in
      IsPool q
      × (is_free q k ≡ 1)
      × ((m : ℕ) → m ≢ k → is_free q m ≡ is_free p m)
      × (q.obj_free ≡ p.obj_free + 1)
obj_free_index-returns p k w two lt used = rw (free-returned p k w lt) (
  returned-IsPool p k w two lt used,
  is_free-returned_self p k (omega (arith, w.words)),
  is_free-returned_ne p k (omega (arith, w.words)),
  refl,
)
