-- ===== src/Memory.antt =====
-- kernel/dpa_mem.c: the three pools of the module (dpa_mem_init, dpa_mem_free), and what a process
-- gets of them when it registers to an interface (dpa_new_if, dpa_free_rings).
-- Structure sizes are those of 64-bit words. A pool call that runs past a table gives `none`.
pub mod Setup
pub mod Built
pub mod Share
pub mod Total
pub mod Freed
pub mod Clean
mod Tests
use dpa.Prelude.{
  ℕ, zero, suc, ◌+◌, ◌-◌, ◌*◌, ◌/◌, ◌%◌, ◌^◌, List, [], ◌∷◌, ◌++◌, map, Bool, true, false, not,
  Option, none, some, if◌then◌else◌, ◌==◌, ltb, get_or, set,
}
use dpa.Prelude.Word.{u16, u32, u64, add32, ltb_i32}
use dpa.Ring.{DpaRing, DpaSlot, no_slot, Kring}
use dpa.Netdev.{DpaAdapter, RxRing, no_rx_ring}
use dpa.Pool.{
  ObjPool, AddrTblItem, no_item, obj_malloc, obj_offset, obj_free_va, free_buf, NewBufs, new_bufs,
}
use dpa.Pool.Build.{Kernel, new_obj_allocator, page_size}

-- struct dpa_mem_allocator
pub record MemAllocator : Type 0 where
  pub total_size : ℕ
  pub if_pool : ObjPool
  pub ring_pool : ObjPool
  pub buf_pool : ObjPool

-- sizeof(struct dpa_if), sizeof(struct dpa_ring), DPA_OBJ_RING_SIZE
abbrev pub if_size : ℕ → ℕ
if_size rings = u32 (24 + rings * 8)

abbrev pub ring_size : ℕ → ℕ
ring_size slots = u32 (48 + slots * 8)

abbrev pub obj_ring_size : ℕ
obj_ring_size = 9 * page_size

-- dpa_if_offset and dpa_ring_offset
abbrev pub if_offset : MemAllocator → ℕ → ℕ
if_offset a dif = obj_offset a.if_pool dif

abbrev pub ring_offset : MemAllocator → ℕ → ℕ
ring_offset a ring = u64 (a.if_pool.mem_total + obj_offset a.ring_pool ring)

-- The fields that dpa_new_if gives to ring `addr` and to its kernel ring.
unfoldable pub ring_at : MemAllocator → ℕ → ℕ → ℕ → List DpaSlot → RxRing
ring_at a buf_size ndesc addr slots = record {
  addr = addr;
  kring = record {
    ring = record {
      buf_ofs =
          u64 (u32 (a.if_pool.mem_total + a.ring_pool.mem_total) + 2 ^ 64 - ring_offset a addr);
      num_slots = ndesc;
      avail = 0;
      cur = 0;
      reserved = 0;
      hw_ofs = 0;
      buf_size = u16 buf_size;
      slot = slots;
    };
    nr_hwcur = 0;
    nr_hwavail = 0;
    nr_kflags = 0;
    nkr_num_slots = ndesc;
    nkr_hwofs = 0;
    total_packets = 0;
    total_bytes = 0;
  };
}

-- The pools and the rings in the loop of dpa_new_if, whether the last ring was built, and where the
-- loop stopped.
pub record Rings : Type 0 where
  pub pools : MemAllocator
  pub rings : List RxRing
  pub is_ok : Bool
  pub stopped : ℕ

-- What dpa_new_if leaves: `dif` is the address that it returns, 0 for NULL.
pub record NewIf : Type 0 where
  pub pools : MemAllocator
  pub adapter : DpaAdapter
  pub dif : ℕ
  pub ring_ofs : List ℕ

-- The frees of dpa_new_if and dpa_destructor_locked: slots j on of a ring, n of them.
unfoldable pub free_bufs : ℕ → ℕ → ObjPool → List DpaSlot → ObjPool
free_bufs zero j p slots = p
free_bufs (suc n) j p slots =
    free_bufs n (j + 1) (free_buf p (get_or slots j no_slot).buf_idx) slots

abbrev pub free_ring_bufs : ObjPool → RxRing → ObjPool
free_ring_bufs p r = free_bufs r.kring.nkr_num_slots 0 p r.kring.ring.slot

-- dpa_free_rings; the pointers stay as they are.
unfoldable pub free_rings : ObjPool → List RxRing → ObjPool
free_rings p [] = p
free_rings p (r ∷ rs) = free_rings (if r.addr == 0 then p else obj_free_va p r.addr) rs

-- What dpa_buf_size is, and what the memory of a ring's slots held before.
module _ (buf_size : ℕ) (old : ℕ → List DpaSlot) where
  -- A ring with its buffers: the rest of one turn of the loop.
  unfoldable pub with_bufs : MemAllocator → List RxRing → ℕ → ℕ → ℕ → Option NewBufs → Option Rings
  unfolding ring_at
  with_bufs a rings i ndesc addr none = none
  with_bufs a rings i ndesc addr (some b) = some (record {
    pools = record a { buf_pool = b.pool };
    rings = set rings i (ring_at a buf_size ndesc addr b.slots);
    is_ok = b.is_ok;
    stopped = i;
  })

  unfoldable pub with_ring :
      MemAllocator → List RxRing → ℕ → ℕ → Option (ObjPool × ℕ) → Option Rings
  with_ring a rings i ndesc none = none
  with_ring a rings i ndesc (some got) =
      let a' = record a { ring_pool = got.0 } in
      if got.1 == 0
      then some (record { pools = a'; rings = set rings i no_rx_ring; is_ok = false; stopped = i })
      else with_bufs a' rings i ndesc got.1 (new_bufs buf_size a'.buf_pool (old got.1) ndesc)

  abbrev next_ring : (Rings → Option Rings) → Option Rings → Option Rings
  next_ring again none = none
  next_ring again (some r) = if r.is_ok then again r else some r

  -- `for (i = 0; i < nrx; i++)`, with n rings to go
  unfoldable pub rings_from : ℕ → ℕ → ℕ → MemAllocator → List RxRing → Option Rings
  rings_from ndesc zero i a rings =
      some (record { pools = a; rings = rings; is_ok = true; stopped = i })
  rings_from ndesc (suc n) i a rings =
      next_ring (λ r. rings_from ndesc n (i + 1) r.pools r.rings)
        (with_ring a rings i ndesc (obj_malloc a.ring_pool (ring_size ndesc)))

  -- `while (i > 0)` of the clean-up
  unfoldable pub undo_bufs : ℕ → ObjPool → List RxRing → ObjPool
  undo_bufs zero p rings = p
  undo_bufs (suc i) p rings = undo_bufs i (free_ring_bufs p (get_or rings i no_rx_ring)) rings

  unfoldable pub clean_up : DpaAdapter → ℕ → Rings → NewIf
  clean_up d dif r = record {
    pools = record (r.pools) {
      buf_pool = undo_bufs r.stopped r.pools.buf_pool r.rings;
      ring_pool = free_rings r.pools.ring_pool r.rings;
      if_pool = obj_free_va r.pools.if_pool dif;
    };
    adapter = record d { rx_rings = r.rings };
    dif = 0;
    ring_ofs = [];
  }

  -- `final`: where each ring lies from the interface's object on
  unfoldable pub finish : MemAllocator → DpaAdapter → ℕ → NewIf
  finish a d dif = record {
    pools = a;
    adapter = d;
    dif = dif;
    ring_ofs =
        map (λ (r : RxRing). u64 (ring_offset a r.addr + 2 ^ 64 - if_offset a dif)) d.rx_rings;
  }

  unfoldable pub with_rings : DpaAdapter → ℕ → Option Rings → Option NewIf
  with_rings d dif none = none
  with_rings d dif (some r) =
      if r.is_ok
      then some (finish r.pools (record d { rx_rings = r.rings; refs = add32 d.refs 1 }) dif)
      else some (clean_up d dif r)

  unfoldable pub with_dif : MemAllocator → DpaAdapter → Option (ObjPool × ℕ) → Option NewIf
  with_dif a d none = none
  with_dif a d (some got) =
      let a' = record a { if_pool = got.0 } in
      if got.1 == 0
      then some (record { pools = a'; adapter = d; dif = 0; ring_ofs = [] })
      else if ltb_i32 0 d.refs
      then some (finish a' (record d { refs = add32 d.refs 1 }) got.1)
      else with_rings d got.1 (rings_from d.num_rx_descs d.num_rx_rings 0 a' d.rx_rings)

  -- dpa_new_if
  unfoldable pub new_if : MemAllocator → DpaAdapter → Option NewIf
  unfolding with_dif
  new_if a d = with_dif a d (obj_malloc a.if_pool (if_size d.num_rx_rings))
