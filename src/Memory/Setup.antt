-- ===== src/Memory/Setup.antt =====
-- kernel/dpa_mem.c: dpa_destroy_obj_allocator, dpa_mem_init and dpa_mem_free, by the addresses of
-- the pages that they take and give back.
use dpa.Prelude.{
  ℕ, zero, suc, ◌+◌, ◌*◌, List, [], ◌∷◌, ◌++◌, Bool, Option, none, some, if◌then◌else◌, ◌==◌, ltb,
  get_or,
}
use dpa.Prelude.Word.{u32}
use dpa.Pool.{ObjPool, no_item}
use dpa.Pool.Build.{Kernel, new_obj_allocator}
use dpa.Memory.{MemAllocator, if_size, obj_ring_size}

-- The loop of dpa_destroy_obj_allocator from object i on; a turn passes a cluster of at least one
-- object, so that as many turns as there are objects are enough.
unfoldable pub clusters_from : ℕ → ObjPool → ℕ → List ℕ
clusters_from zero p i = []
clusters_from (suc n) p i =
    let base = (get_or p.addr_tbl i no_item).vaddr in
    let rest = clusters_from n p (i + p.clst_n_entries) in
    if ltb i p.obj_total then if base == 0 then rest else base ∷ rest else []

-- dpa_destroy_obj_allocator: the pages that go back. `none` is NULL.
unfoldable pub destroy_obj_allocator : Option ObjPool → List ℕ
destroy_obj_allocator none = []
destroy_obj_allocator (some p) = clusters_from p.obj_total p 0

-- The parameters dpa_num_ifs, dpa_num_queues, dpa_num_bufs and dpa_buf_size.
pub record Params : Type 0 where
  pub num_ifs : ℕ
  pub num_queues : ℕ
  pub num_bufs : ℕ
  pub buf_size : ℕ

-- What dpa_mem_init leaves: the allocator, or NULL for -ENOMEM, and the pages that were given back
-- on the way, by dpa_new_obj_allocator and by the clean-up.
pub record Init : Type 0 where
  pub allocator : Option MemAllocator
  pub freed : List ℕ

abbrev pub Made : Type 0
Made = Option (ObjPool × List ℕ)

abbrev no_memory : List ℕ → Init
no_memory freed = record { allocator = none; freed = freed }

abbrev total : ObjPool → ObjPool → ObjPool → ℕ
total ifs rings bufs = u32 (ifs.mem_total + rings.mem_total + bufs.mem_total)

-- The third pool, and the clean-up with the pools made so far.
unfoldable pub init_bufs : ObjPool → ObjPool → List ℕ → Made → Init
init_bufs ifs rings freed none =
    no_memory (freed ++ destroy_obj_allocator (some rings) ++ destroy_obj_allocator (some ifs))
init_bufs ifs rings freed (some (bufs, more)) = record {
  allocator = some (record {
    total_size = total ifs rings bufs;
    if_pool = ifs;
    ring_pool = rings;
    buf_pool = bufs;
  });
  freed = freed ++ more;
}

unfoldable pub init_rings : Made → ObjPool → List ℕ → Made → Init
init_rings bufs ifs freed none = no_memory (freed ++ destroy_obj_allocator (some ifs))
init_rings bufs ifs freed (some (rings, more)) = init_bufs ifs rings (freed ++ more) bufs

unfoldable pub init_ifs : Made → Made → Made → Init
init_ifs rings bufs none = no_memory []
init_ifs rings bufs (some (ifs, freed)) = init_rings bufs ifs freed rings

-- dpa_mem_init, with whether kmalloc gives the allocator, and the kernel's calls for each pool
unfoldable pub mem_init : Params → Bool → Kernel → Kernel → Kernel → Init
unfolding init_ifs init_rings init_bufs
mem_init c has_memory k_if k_ring k_buf =
    if has_memory
    then init_ifs (new_obj_allocator k_ring (u32 (c.num_ifs * c.num_queues)) obj_ring_size)
        (new_obj_allocator k_buf c.num_bufs c.buf_size)
        (new_obj_allocator k_if (u32 (c.num_ifs * c.num_queues)) (if_size c.num_queues))
    else no_memory []

-- dpa_mem_free: the pages that go back
unfoldable pub mem_free : Option MemAllocator → List ℕ
mem_free none = []
mem_free (some a) =
    destroy_obj_allocator (some a.if_pool)
    ++ destroy_obj_allocator (some a.ring_pool)
    ++ destroy_obj_allocator (some a.buf_pool)
