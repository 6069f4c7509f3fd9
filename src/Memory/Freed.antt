-- ===== src/Memory/Freed.antt =====
-- dpa_obj_free_va and dpa_free_rings (kernel/dpa_mem.c): which objects are free afterwards.
use dpa.Prelude.{
  ℕ, zero, suc, ◌+◌, ◌*◌, ◌/◌, ◌%◌, ◌^◌, ◌≤◌, ◌<◌, ◌≡◌, ◌≢◌, ◌⊎◌, inl, inr, List, [], ◌∷◌, Bool,
  true, false, ◌||◌, ◌&&◌, Option, none, some, if◌then◌else◌, ltb, leb, get_or, length, length-set,
  arith, refl, sym, ap, ◌∙◌, subst, ne→==_false, bit_or,
}
use native.Mathlib.Nat.{mod-eq_of_lt, suc-mul, zero-mul}
use native.Mathlib.Decide.{ℕ_discrete}
use dpa.Prelude.Word.{u32, add32}
use dpa.Netdev.{RxRing}
use dpa.Pool.{ObjPool, no_item, rel_ofs, obj_free_index, free_va_from, obj_free_va}
use dpa.Pool.Bitmap.{is_free}
use dpa.Pool.Take.{returned, is_free-returned_self, is_free-returned_ne}
use dpa.Memory.{free_rings}

-- The address of cluster i, and whether an address is not in it
abbrev base : ObjPool → ℕ → ℕ
base p i = (get_or p.addr_tbl (u32 (i * p.clst_n_entries)) no_item).vaddr

abbrev is_past : ObjPool → ℕ → ℕ → Bool
is_past p vaddr i =
    let relofs = rel_ofs vaddr (base p i) in
    ltb vaddr (base p i) || (ltb relofs (2 ^ 63) && leb p.clst_size relofs)

-- The address is that of object k, in cluster c and in none before.
abbrev pub IsAt : ObjPool → ℕ → ℕ → Type 0
IsAt p vaddr k =
    (c : ℕ) × (c < p.mem_total / p.clst_size)
    × ((i : ℕ) → i < c → is_past p vaddr i ≡ true)
    × (is_past p vaddr c ≡ false)
    × (k ≡ c * p.clst_n_entries + rel_ofs vaddr (base p c) / p.obj_size)
    × (k < p.obj_total)
    × (p.obj_total < 2 ^ 31)
    × (p.obj_total ≤ length p.bitmap * 32)

abbrev turn : ObjPool → ObjPool → ℕ → Bool → ObjPool
turn rest p k b = if b then rest else obj_free_index p k

free_va_from-eq :
    (p : ObjPool) (vaddr n c i j : ℕ)
    → c < n
    → j + c * p.clst_n_entries + rel_ofs vaddr (base p (i + c)) / p.obj_size < 2 ^ 32
    → ((k : ℕ) → k < c → is_past p vaddr (i + k) ≡ true)
    → is_past p vaddr (i + c) ≡ false
    → free_va_from n p vaddr i j
      ≡ obj_free_index p (j + c * p.clst_n_entries + rel_ofs vaddr (base p (i + c)) / p.obj_size)
unfolding free_va_from
free_va_from-eq p vaddr zero c i j lt small past here = absurd (omega arith)
free_va_from-eq p vaddr (suc n) zero i j lt small past here =
    let q : ℕ → ℕ = λ i. rel_ofs vaddr (base p i) / p.obj_size in
    let e : i + 0 ≡ i = omega arith in
    let at : is_past p vaddr i ≡ false = ap (is_past p vaddr) (sym e) ∙ here in
    let same : q (i + 0) ≡ q i = ap q e in
    let k : add32 j (q i) ≡ j + 0 * p.clst_n_entries + q (i + 0) =
      omega (arith, same, small, zero-mul p.clst_n_entries) in
    rw (at) (ap (obj_free_index p) k)
free_va_from-eq p vaddr (suc n) (suc c) i j lt small past here =
    let q : ℕ → ℕ = λ i. rel_ofs vaddr (base p i) / p.obj_size in
    let e : i + 0 ≡ i = omega arith in
    let at : is_past p vaddr i ≡ true = ap (is_past p vaddr) (sym e) ∙ past 0 (omega arith) in
    let next : i + 1 + c ≡ i + suc c = omega arith in
    let same : q (i + 1 + c) ≡ q (i + suc c) = ap q next in
    let step = suc-mul c p.clst_n_entries in
    let on : add32 j p.clst_n_entries ≡ j + p.clst_n_entries =
      mod-eq_of_lt (omega (arith, small, step)) in
    let rest =
      free_va_from-eq p vaddr n c (i + 1) (add32 j p.clst_n_entries) (omega (arith, lt))
        (omega (arith, small, step, on, same))
        (λ k h.
          let x : i + 1 + k ≡ i + suc k = omega arith in
          ap (is_past p vaddr) x ∙ past (suc k) (omega (arith, h)))
        (ap (is_past p vaddr) next ∙ here) in
    rw (at) (rest ∙ ap (obj_free_index p) (omega (arith, step, on, same)))

in_table : (p : ObjPool) (k : ℕ) → k < p.obj_total → leb p.obj_total k ≡ false
in_table p k lt = ground (arith, lt)

-- The object's bit is set, and the counter grows by one.
set_free : ObjPool → ℕ → ObjPool
set_free p k = record (returned p k) { obj_free = add32 p.obj_free 1 }

obj_free_va-eq : (p : ObjPool) (vaddr k : ℕ) → IsAt p vaddr k → obj_free_va p vaddr ≡ set_free p k
unfolding obj_free_va obj_free_index set_free
obj_free_va-eq p vaddr k (c, lt, past, here, index, inside, small, words) =
    let q : ℕ → ℕ = λ i. rel_ofs vaddr (base p i) / p.obj_size in
    let z : (i : ℕ) → 0 + i ≡ i = λ i. omega arith in
    let same : q (0 + c) ≡ q c = ap q (z c) in
    let there : 0 + c * p.clst_n_entries + q (0 + c) ≡ k = omega (arith, index, same) in
    free_va_from-eq p vaddr (p.mem_total / p.clst_size) c 0 0 lt
      (omega (arith, index, inside, small, same)) (λ k h. ap (is_past p vaddr) (z k) ∙ past k h)
      (ap (is_past p vaddr) (z c) ∙ here)
    ∙ ap (obj_free_index p) there
    ∙ rw (in_table p k inside) refl

-- Which object each ring's address is; `none` for NULL
abbrev pub Points : ObjPool → List RxRing → List (Option ℕ) → Type 0
Points p [] [] = Unit {0}
Points p [] (k ∷ ks) = ⊥
Points p (r ∷ rs) [] = ⊥
Points p (r ∷ rs) (none ∷ ks) = (r.addr ≡ 0) × Points p rs ks
Points p (r ∷ rs) (some k ∷ ks) = (r.addr ≢ 0) × IsAt p r.addr k × Points p rs ks

abbrev pub Has : ℕ → List (Option ℕ) → Type 0
Has m [] = ⊥
Has m (none ∷ ks) = Has m ks
Has m (some k ∷ ks) = (m ≡ k) ⊎ Has m ks

is_free-set_free_self : (p : ObjPool) (vaddr k : ℕ) → IsAt p vaddr k → is_free (set_free p k) k ≡ 1
unfolding set_free
is_free-set_free_self p vaddr k a = is_free-returned_self p k (omega (arith, a.5, a.7))

is_free-set_free_ne :
    (p : ObjPool) (vaddr k m : ℕ) → IsAt p vaddr k → m ≢ k → is_free (set_free p k) m ≡ is_free p m
unfolding set_free
is_free-set_free_ne p vaddr k m a ne = is_free-returned_ne p k (omega (arith, a.5, a.7)) m ne

-- Only the bitmap and the counter change.
set_free-IsAt : (p : ObjPool) (k vaddr m : ℕ) → IsAt p vaddr m → IsAt (set_free p k) vaddr m
unfolding set_free
set_free-IsAt p k vaddr m (c, lt, past, here, index, inside, small, words) =
    let n = length-set p.bitmap (k / 32) (bit_or (get_or p.bitmap (k / 32) 0) (2 ^ (k % 32))) in
    (c, lt, past, here, index, inside, small, omega (arith, words, n))

set_free-Points :
    (p : ObjPool) (k : ℕ) (rs : List RxRing) (ks : List (Option ℕ))
    → Points p rs ks
    → Points (set_free p k) rs ks
set_free-Points p k [] [] h = tt
set_free-Points p k [] (k' ∷ ks) h = elim h [ ]
set_free-Points p k (r ∷ rs) [] h = elim h [ ]
set_free-Points p k (r ∷ rs) (none ∷ ks) h = (h.0, set_free-Points p k rs ks h.1)
set_free-Points p k (r ∷ rs) (some m ∷ ks) h =
    (h.0, set_free-IsAt p k r.addr m h.1, set_free-Points p k rs ks h.2)

free_rings-cons :
    (p : ObjPool) (r : RxRing) (rs : List RxRing) (k : ℕ)
    → r.addr ≢ 0
    → IsAt p r.addr k
    → free_rings p (r ∷ rs) ≡ free_rings (set_free p k) rs
unfolding free_rings
free_rings-cons p r rs k ne a =
    ap (λ b. free_rings (if b then p else obj_free_va p r.addr) rs) (ne→==_false r.addr 0 ne)
    ∙ ap (λ q. free_rings q rs) (obj_free_va-eq p r.addr k a)

-- A free object stays free.
free_rings-keeps :
    (p : ObjPool) (rs : List RxRing) (ks : List (Option ℕ)) (m : ℕ)
    → Points p rs ks
    → is_free p m ≡ 1
    → is_free (free_rings p rs) m ≡ 1
unfolding free_rings
free_rings-keeps p [] [] m h e = e
free_rings-keeps p [] (k ∷ ks) m h e = elim h [ ]
free_rings-keeps p (r ∷ rs) [] m h e = elim h [ ]
free_rings-keeps p (r ∷ rs) (none ∷ ks) m h e = rw (h.0) (free_rings-keeps p rs ks m h.1 e)
free_rings-keeps p (r ∷ rs) (some k ∷ ks) m h e =
    let kept : is_free (set_free p k) m ≡ 1 = elim (ℕ_discrete m k) [
      | yes q ↦
          subst (λ t. is_free (set_free p k) t ≡ 1) (sym q) (is_free-set_free_self p r.addr k h.1)
      | no q ↦ is_free-set_free_ne p r.addr k m h.1 q ∙ e
    ] in
    subst (λ q. is_free q m ≡ 1) (sym (free_rings-cons p r rs k h.0 h.1))
      (free_rings-keeps (set_free p k) rs ks m (set_free-Points p k rs ks h.2) kept)

-- Every object that a ring points to is free afterwards.
pub free_rings-frees :
    (p : ObjPool) (rs : List RxRing) (ks : List (Option ℕ)) (m : ℕ)
    → Points p rs ks
    → Has m ks
    → is_free (free_rings p rs) m ≡ 1
unfolding free_rings
free_rings-frees p [] [] m h i = elim i [ ]
free_rings-frees p [] (k ∷ ks) m h i = elim h [ ]
free_rings-frees p (r ∷ rs) [] m h i = elim h [ ]
free_rings-frees p (r ∷ rs) (none ∷ ks) m h i = rw (h.0) (free_rings-frees p rs ks m h.1 i)
free_rings-frees p (r ∷ rs) (some k ∷ ks) m h (inl e) =
    subst (λ q. is_free q m ≡ 1) (sym (free_rings-cons p r rs k h.0 h.1))
      (free_rings-keeps (set_free p k) rs ks m (set_free-Points p k rs ks h.2)
        (subst (λ t. is_free (set_free p k) t ≡ 1) (sym e) (is_free-set_free_self p r.addr k h.1)))
free_rings-frees p (r ∷ rs) (some k ∷ ks) m h (inr i) =
    subst (λ q. is_free q m ≡ 1) (sym (free_rings-cons p r rs k h.0 h.1))
      (free_rings-frees (set_free p k) rs ks m (set_free-Points p k rs ks h.2) i)
