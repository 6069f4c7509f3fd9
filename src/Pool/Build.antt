-- ===== src/Pool/Build.antt =====
-- kernel/dpa_mem.c, dpa_new_obj_allocator: the geometry of a pool's clusters and the loop that
-- fills them. What kmalloc, vmalloc and __get_free_pages return is an argument, `Kernel`.
use dpa.Prelude.{
  ℕ, zero, suc, ◌+◌, ◌-◌, ◌*◌, ◌/◌, ◌%◌, ◌^◌, List, [], ◌∷◌, Bool, not, Option, none, some, bit_and,
  bit_or, if◌then◌else◌, ◌==◌, ltb, leb, get_or, set, replicate,
}
use dpa.Prelude.Bits.{complement}
use dpa.Prelude.Word.{u32, add32, sub32}
use dpa.Pool.{ObjPool, no_item}

abbrev pub page_size : ℕ
page_size = 4096

abbrev pub cluster_max_size : ℕ
cluster_max_size = 131072

abbrev pub cache_line : ℕ
cache_line = 64

-- The memory calls of the kernel: whether kmalloc and vmalloc succeed, the address of the pages of
-- the cluster that begins at object i, if there are any, and virt_to_phys.
pub record Kernel : Type 0 where
  pub has_pool : Bool
  pub has_table : Bool
  pub has_bitmap : Bool
  pub pages : ℕ → Option ℕ
  pub phys : ℕ → ℕ

unfoldable pub align : ℕ → ℕ
align size =
    let i = bit_and size (cache_line - 1) in if i == 0 then size else add32 size (cache_line - i)

-- The search for the number of objects of a cluster from i objects on; beyond 128 KiB it ends, so
-- that for objects of a cache line or more 2049 turns are enough.
unfoldable pub entries_from : ℕ → ℕ → ℕ → ℕ → ℕ
entries_from zero size i best = best
entries_from (suc n) size i best =
    let used = u32 (i * size) in
    let better = ltb (u32 (best * size) % page_size) (used % page_size) in
    let rest = entries_from n size (i + 1) (if better then i else best) in
    if ltb cluster_max_size used then best else if used % page_size == 0 then i else rest

unfoldable pub cluster_entries : ℕ → ℕ
cluster_entries size = entries_from 2049 size 1 0

unfoldable pub cluster_size : ℕ → ℕ → ℕ
cluster_size entries size =
    let used = u32 (entries * size) in
    let i = bit_and used (page_size - 1) in if i == 0 then used else add32 used (page_size - i)

-- The pool before its clusters are filled.
unfoldable pub empty_pool : ℕ → ℕ → ObjPool
empty_pool objects size =
    let entries = cluster_entries size in
    let bytes = cluster_size entries size in
    let n = sub32 (u32 (objects + 2 + entries)) 1 / entries in
    let total = u32 (n * entries) in
    record {
      obj_total = total;
      obj_free = sub32 total 2;
      clst_n_entries = entries;
      num_clusters = n;
      clst_size = bytes;
      obj_size = size;
      mem_total = u32 (n * bytes);
      addr_tbl = replicate total no_item;
      bitmap = replicate ((total + 31) / 32) 0;
    }

-- `for (; i < lim; i++, clust += obj_size)`, with `n` objects of the cluster to go.
unfoldable pub fill : Kernel → ℕ → ObjPool → ℕ → ℕ → ObjPool
fill k zero p i clust = p
fill k (suc n) p i clust =
    fill k n
      (record p {
        bitmap = set p.bitmap (i / 32) (bit_or (get_or p.bitmap (i / 32) 0) (2 ^ (i % 32)));
        addr_tbl = set p.addr_tbl i (record { vaddr = clust; paddr = k.phys clust });
      })
      (i + 1) (clust + p.obj_size)

-- `for (; i >= lim; i--)` after a failure, for the `n` objects down from i: the bits are cleared
-- and the pages of the clusters that begin there given back. The list is what was given back.
unfoldable pub unwind : ℕ → ObjPool → ℕ → List ℕ → ObjPool × List ℕ
unwind zero p i freed = (p, freed)
unwind (suc n) p i freed =
    let base = (get_or p.addr_tbl i no_item).vaddr in
    let starts = i % p.clst_n_entries == 0 in
    let word = bit_and (get_or p.bitmap (i / 32) 0) (complement 32 (2 ^ (i % 32))) in
    unwind n (record p { bitmap = set p.bitmap (i / 32) word }) (i - 1)
      (if starts then if base == 0 then freed else base ∷ freed else freed)

-- A cluster at object i has no pages: half of the objects before it are kept.
unfoldable pub give_up : ObjPool → ℕ → ObjPool × List ℕ
give_up p i =
    let lim = i / 2 in
    let (q, freed) = unwind (i + 1 - lim) p i [] in
    let total = sub32 lim 1 in
    (
      record q {
        obj_total = total;
        obj_free = sub32 total 2;
        num_clusters = total / q.clst_n_entries;
        mem_total = u32 (total / q.clst_n_entries * q.clst_size);
      },
      freed,
    )

-- `for (i = 0; i < pool->obj_total;)`; each turn fills a cluster, so that as many turns as there
-- are clusters are enough.
unfoldable pub fill_clusters : Kernel → ℕ → ObjPool → ℕ → ObjPool × List ℕ
fill_clusters k zero p i = (p, [])
fill_clusters k (suc n) p i =
    if ltb i p.obj_total
    then elim (k.pages i) [
      | none ↦ give_up p i
      | some clust ↦ fill_clusters k n (fill k p.clst_n_entries p i clust) (i + p.clst_n_entries)
    ]
    else (p, [])

-- Objects 0 and 1 are kept: bitmap[0] = ~3.
unfoldable pub keep_two : ObjPool → ObjPool
keep_two p = record p { bitmap = set p.bitmap 0 (2 ^ 32 - 4) }

-- dpa_new_obj_allocator: `none` is NULL. Past a failure of kmalloc or vmalloc nothing is kept.
unfoldable pub new_obj_allocator : Kernel → ℕ → ℕ → Option (ObjPool × List ℕ)
new_obj_allocator k objects size =
    let p = empty_pool objects (align size) in
    if leb cluster_max_size size
    then none
    else if not k.has_pool
    then none
    else if not k.has_table
    then none
    else if not k.has_bitmap
    then none
    else let (q, freed) = fill_clusters k (p.num_clusters + 1) p 0 in some (keep_two q, freed)
