-- ===== src/Entry/Mapped.antt =====
-- Where dpa_mmap (kernel/dpa_main.c) puts the objects of a pool, and the offsets that the kernel
-- gives to processes (kernel/dpa_mem.c, dpa_obj_offset; kernel/dpa_mem.h, dpa_ring_offset).
use native.Mathlib.Nat.{mod-eq_of_lt, suc-mul, zero-add, mul-le-mul_left, mul-le-mul_right}
use dpa.Prelude.{
  ℕ, zero, suc, ◌+◌, ◌*◌, ◌^◌, ◌≤◌, ◌<◌, ◌≡◌, List, [], ◌∷◌, ◌++◌, Bool, true, false, some, get_or,
  get_elem?, length, if◌then◌else◌, arith, refl, sym, ap, ap₂, ◌∙◌,
}
use dpa.Prelude.Word.{add32, u64, ltb_i32, ltb_i32_small}
use dpa.Pool.{ObjPool, no_item, rel_ofs, is_outside, offset_from, obj_offset}
use dpa.Memory.{MemAllocator, ring_offset}
use dpa.Entry.{Mapping, map_clusters, skip_pool, mappings}

-- The first entry of cluster c, and whether an address lies in it.
abbrev pub first_entry : ObjPool → ℕ → ℕ
first_entry p c = c * p.clst_n_entries

abbrev pub base_of : ObjPool → ℕ → ℕ
base_of p c = (get_or p.addr_tbl (first_entry p c) no_item).vaddr

module _ (p : ObjPool) where
  map_clusters-at :
      (n c skip user : ℕ)
      → c < n
      → skip + n * p.clst_n_entries < 2 ^ 32
      → user + n * p.clst_size < 2 ^ 32
      → get_elem? (map_clusters p n skip user) c
        ≡ some (record {
          user = user + c * p.clst_size;
          paddr = (get_or p.addr_tbl (skip + c * p.clst_n_entries) no_item).paddr;
          size = p.clst_size;
        })
  unfolding map_clusters
  map_clusters-at zero c skip user lt a b = absurd (omega arith)
  map_clusters-at (suc n) zero skip user lt a b =
      ap₂
        (λ u t.
          some
            (record { user = u; paddr = (get_or p.addr_tbl t no_item).paddr; size = p.clst_size }))
        (omega arith) (omega arith)
  map_clusters-at (suc n) (suc c) skip user lt a b =
      let e : add32 skip p.clst_n_entries ≡ skip + p.clst_n_entries =
        mod-eq_of_lt (omega (arith, suc-mul n p.clst_n_entries)) in
      let f : add32 user p.clst_size ≡ user + p.clst_size =
        mod-eq_of_lt (omega (arith, suc-mul n p.clst_size)) in
      map_clusters-at n c (add32 skip p.clst_n_entries) (add32 user p.clst_size) (omega arith)
        (omega (arith, e, suc-mul n p.clst_n_entries)) (omega (arith, f, suc-mul n p.clst_size))
      ∙ ap₂
          (λ u t.
            some (record {
              user = u;
              paddr = (get_or p.addr_tbl t no_item).paddr;
              size = p.clst_size;
            }))
          (omega (arith, f, suc-mul c p.clst_size)) (omega (arith, e, suc-mul c p.clst_n_entries))

  skip_pool-eq :
      (n user : ℕ)
      → user + n * p.clst_size < 2 ^ 32
      → skip_pool p.clst_size n user ≡ user + n * p.clst_size
  unfolding skip_pool
  skip_pool-eq zero user h = omega arith
  skip_pool-eq (suc n) user h =
      let f : add32 user p.clst_size ≡ user + p.clst_size =
        mod-eq_of_lt (omega (arith, suc-mul n p.clst_size)) in
      skip_pool-eq n (add32 user p.clst_size) (omega (arith, f, suc-mul n p.clst_size))
      ∙ omega (arith, f, suc-mul n p.clst_size)

  length-map_clusters : (n skip user : ℕ) → length (map_clusters p n skip user) ≡ n
  unfolding map_clusters
  length-map_clusters zero skip user = refl
  length-map_clusters (suc n) skip user =
      ap suc (length-map_clusters n (add32 skip p.clst_n_entries) (add32 user p.clst_size))

  abbrev at : ℕ → ℕ → ℕ
  at vaddr i = rel_ofs vaddr (get_or p.addr_tbl i no_item).vaddr

  abbrev turn : ℕ → ℕ → ℕ → ℕ → Bool → Bool → ℕ
  turn fuel i ofs vaddr b o =
      if b
      then if o
        then offset_from fuel p vaddr (add32 i p.clst_n_entries) (ofs + p.clst_size)
        else ofs + at vaddr i
      else 0

  inside : (i : ℕ) → i < p.obj_total → p.obj_total < 2 ^ 31 → ltb_i32 i p.obj_total ≡ true
  inside i h small = ltb_i32_small i p.obj_total (omega arith) small ∙ ground (arith)

  offset_from-eq :
      (fuel c i ofs vaddr : ℕ)
      → c < fuel
      → i + c * p.clst_n_entries < p.obj_total
      → p.obj_total < 2 ^ 31
      → ((k : ℕ) → k < c → is_outside p (at vaddr (i + k * p.clst_n_entries)) ≡ true)
      → is_outside p (at vaddr (i + c * p.clst_n_entries)) ≡ false
      → offset_from fuel p vaddr i ofs ≡ ofs + c * p.clst_size + at vaddr (i + c * p.clst_n_entries)
  unfolding offset_from
  offset_from-eq zero c i ofs vaddr lt h small out here = absurd (omega arith)
  offset_from-eq (suc fuel) zero i ofs vaddr lt h small out here =
      let e : i + 0 * p.clst_n_entries ≡ i = omega arith in
      ap₂ (turn fuel i ofs vaddr) (inside i (omega arith) small)
        (ap (λ t. is_outside p (at vaddr t)) (sym e) ∙ here)
      ∙ ap₂ (λ o t. o + at vaddr t) (omega arith) (sym e)
  offset_from-eq (suc fuel) (suc c) i ofs vaddr lt h small out here =
      let e : i + 0 * p.clst_n_entries ≡ i = omega arith in
      let f : add32 i p.clst_n_entries ≡ i + p.clst_n_entries =
        mod-eq_of_lt (omega (arith, suc-mul c p.clst_n_entries)) in
      let g = λ (k : ℕ).
        let x : i + suc k * p.clst_n_entries ≡ add32 i p.clst_n_entries + k * p.clst_n_entries =
          omega (arith, f, suc-mul k p.clst_n_entries) in
        x in
      ap₂ (turn fuel i ofs vaddr) (inside i (omega (arith, suc-mul c p.clst_n_entries)) small)
        (ap (λ t. is_outside p (at vaddr t)) (sym e) ∙ out 0 (omega arith))
      ∙ offset_from-eq fuel c (add32 i p.clst_n_entries) (ofs + p.clst_size) vaddr (omega arith)
          (omega (arith, g c)) small
          (λ k hk. ap (λ t. is_outside p (at vaddr t)) (sym (g k)) ∙ out (suc k) (omega arith))
          (ap (λ t. is_outside p (at vaddr t)) (sym (g c)) ∙ here)
      ∙ ap₂ (λ o t. o + at vaddr t) (omega (arith, suc-mul c p.clst_size)) (sym (g c))

-- Pools whose clusters fit dpa_mmap's `int`, in front of each other in the mapping.
pub record Fits (p : ObjPool) (user : ℕ) : Type 0 where
  pub table : p.num_clusters * p.clst_n_entries ≡ p.obj_total
  pub entries : 1 ≤ p.clst_n_entries
  pub total : p.obj_total < 2 ^ 31
  pub space : user + p.num_clusters * p.clst_size < 2 ^ 31
  pub size : p.mem_total ≡ p.num_clusters * p.clst_size

-- An address that lies in cluster c of a pool, and in no earlier one.
pub record InCluster (p : ObjPool) (c vaddr : ℕ) : Type 0 where
  pub cluster : c < p.num_clusters
  pub here : is_outside p (rel_ofs vaddr (base_of p c)) ≡ false
  pub earlier : (k : ℕ) → k < c → is_outside p (rel_ofs vaddr (base_of p k)) ≡ true

obj_offset-eq :
    (p : ObjPool) (user c vaddr : ℕ)
    → Fits p user
    → InCluster p c vaddr
    → obj_offset p vaddr ≡ c * p.clst_size + rel_ofs vaddr (base_of p c)
unfolding obj_offset
obj_offset-eq p user c vaddr v w =
    let few : c * p.clst_n_entries + p.clst_n_entries ≤ p.obj_total =
      omega
        (arith, mul-le-mul_right p.clst_n_entries w.cluster, suc-mul c p.clst_n_entries, v.table) in
    let plain = λ (k : ℕ). zero-add (k * p.clst_n_entries) in
    offset_from-eq p p.obj_total c 0 0 vaddr
      (omega (arith, mul-le-mul_left (suc c) v.entries, suc-mul c p.clst_n_entries))
      (omega (arith, v.entries)) v.total
      (λ k h. ap (λ t. is_outside p (at p vaddr t)) (plain k) ∙ w.earlier k h)
      (ap (λ t. is_outside p (at p vaddr t)) (plain c) ∙ w.here)
    ∙ ap₂ (λ o t. o + at p vaddr t) (omega arith) (plain c)

module _ {A : Type 0} where
  get_elem?-append_right :
      (xs ys : List A) (c : ℕ) → get_elem? (xs ++ ys) (length xs + c) ≡ get_elem? ys c
  get_elem?-append_right [] ys c = ap (get_elem? ys) (zero-add c)
  get_elem?-append_right (x ∷ xs) ys c =
      let e : length (x ∷ xs) + c ≡ suc (length xs + c) = omega arith in
      ap (get_elem? (x ∷ (xs ++ ys))) e ∙ get_elem?-append_right xs ys c

  get_elem?-append_left :
      (xs ys : List A) (c : ℕ) → c < length xs → get_elem? (xs ++ ys) c ≡ get_elem? xs c
  get_elem?-append_left [] ys c h = absurd (omega arith)
  get_elem?-append_left (x ∷ xs) ys zero h = refl
  get_elem?-append_left (x ∷ xs) ys (suc c) h = get_elem?-append_left xs ys c (omega arith)

inside_cluster : (p : ObjPool) (r : ℕ) → is_outside p r ≡ false → r < p.clst_size
unfolding is_outside
inside_cluster p r h = ground (arith)

third_part :
    (a : MemAllocator) (c user total : ℕ)
    → user ≡ total
    → (rest : List Mapping) → Fits a.ring_pool total
    → c < a.ring_pool.num_clusters
    → get_elem?
        (map_clusters a.if_pool a.if_pool.num_clusters 0 0
          ++ (map_clusters a.ring_pool a.ring_pool.num_clusters 0 user ++ rest))
        (a.if_pool.num_clusters + c)
      ≡ some (record {
        user = total + c * a.ring_pool.clst_size;
        paddr = (get_or a.ring_pool.addr_tbl (first_entry a.ring_pool c) no_item).paddr;
        size = a.ring_pool.clst_size;
      })
third_part a c user total e rest w lt =
    let first = map_clusters a.if_pool a.if_pool.num_clusters 0 0 in
    let second = map_clusters a.ring_pool a.ring_pool.num_clusters 0 user in
    ap (λ n. get_elem? (first ++ (second ++ rest)) (n + c))
      (sym (length-map_clusters a.if_pool a.if_pool.num_clusters 0 0))
    ∙ get_elem?-append_right first (second ++ rest) c
    ∙ get_elem?-append_left second rest c
        (omega (arith, length-map_clusters a.ring_pool a.ring_pool.num_clusters 0 user))
    ∙ map_clusters-at a.ring_pool a.ring_pool.num_clusters c 0 user lt
        (omega (arith, w.table, w.total)) (omega (arith, w.space, e))
    ∙ ap₂
        (λ u t. some (record {
          user = u;
          paddr = (get_or a.ring_pool.addr_tbl t no_item).paddr;
          size = a.ring_pool.clst_size;
        }))
        (omega (arith, e)) (zero-add (c * a.ring_pool.clst_n_entries))

-- For a ring's object in cluster c of the pool of rings, where the pools' clusters fit an int32_t:
-- dpa_mmap maps that cluster to the offset U at which the clusters of interfaces and the c clusters
-- before it end, and the offset that dpa_ring_offset gives of the object is U and its distance from
-- the cluster's begin, which lies within the cluster.
pub ring_offset-mapped :
    (a : MemAllocator) (c vaddr : ℕ)
    → Fits a.if_pool 0
    → Fits a.ring_pool a.if_pool.mem_total
    → InCluster a.ring_pool c vaddr
    → let u = a.if_pool.mem_total + c * a.ring_pool.clst_size in
      let inner = rel_ofs vaddr (base_of a.ring_pool c) in
      (get_elem? (mappings a) (a.if_pool.num_clusters + c)
        ≡ some (record {
          user = u;
          paddr = (get_or a.ring_pool.addr_tbl (first_entry a.ring_pool c) no_item).paddr;
          size = a.ring_pool.clst_size;
        }))
      × (ring_offset a vaddr ≡ u + inner)
      × (inner < a.ring_pool.clst_size)
ring_offset-mapped a c vaddr v w x = (found, offset, within)
  where
    start : skip_pool a.if_pool.clst_size a.if_pool.num_clusters 0 ≡ a.if_pool.mem_total
    start =
        skip_pool-eq a.if_pool a.if_pool.num_clusters 0 (omega (arith, v.space))
        ∙ omega (arith, v.size)

    within : rel_ofs vaddr (base_of a.ring_pool c) < a.ring_pool.clst_size
    within = inside_cluster a.ring_pool _ x.here

    offset :
        ring_offset a vaddr
        ≡ a.if_pool.mem_total + c * a.ring_pool.clst_size + rel_ofs vaddr (base_of a.ring_pool c)
    offset =
        ap (λ t. u64 (a.if_pool.mem_total + t))
          (obj_offset-eq a.ring_pool a.if_pool.mem_total c vaddr w x)
        ∙ mod-eq_of_lt (
            omega (
              arith,
              within,
              w.space,
              suc-mul c a.ring_pool.clst_size,
              mul-le-mul_right a.ring_pool.clst_size x.cluster,
            ))
        ∙ omega arith

    found :
        get_elem? (mappings a) (a.if_pool.num_clusters + c)
        ≡ some (record {
          user = a.if_pool.mem_total + c * a.ring_pool.clst_size;
          paddr = (get_or a.ring_pool.addr_tbl (first_entry a.ring_pool c) no_item).paddr;
          size = a.ring_pool.clst_size;
        })
    found =
        unfold mappings in
        third_part a c (skip_pool a.if_pool.clst_size a.if_pool.num_clusters 0) a.if_pool.mem_total
          start _ w x.cluster
