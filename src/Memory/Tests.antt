-- ===== src/Memory/Tests.antt =====
-- Runs of dpa_new_if (kernel/dpa_mem.c) on pools of five objects.
use dpa.Prelude.{
  ℕ, zero, suc, ◌*◌, ◌^◌, ◌<◌, ◌≡◌, List, [], ◌∷◌, true, false, some, refl, replicate, arith, inl,
  get_or, ltb, leb, ◌||◌, ◌&&◌,
}
use dpa.Prelude.Word.{u32, ltb_i32}
use dpa.Ring.{DpaSlot, no_slot}
use dpa.Netdev.{DpaAdapter, RxRing, no_rx_ring}
use dpa.Pool.{
  ObjPool, AddrTblItem, no_item, obj_free_va, obj_free_index, free_va_from, rel_ofs, obj_malloc,
  search, find_bit, grab, grab_at, with_addr,
}
use dpa.Pool.Bitmap.{is_free}
use dpa.Pool.Samples.{five, five-IsPool}
use dpa.Memory.{MemAllocator, NewIf, new_if, free_rings}
use dpa.Memory.Share.{Shares}
use dpa.Memory.Freed.{Points}
use dpa.Memory.Clean.{new_if-frees_stale}
use dpa.Memory.Total.{IsSound, new_if-Shares}

abbrev allocator : MemAllocator
allocator = record { total_size = 61440; if_pool = five; ring_pool = five; buf_pool = five }

allocator-IsSound : IsSound allocator
allocator-IsSound = record { ifs = five-IsPool; rings = five-IsPool; bufs = five-IsPool }

abbrev two_slots : ℕ → List DpaSlot
two_slots addr = replicate 2 no_slot

abbrev adapter : DpaAdapter
adapter = record {
  magic = 0;
  refs = 0;
  excl_locks = false;
  dev_model = 1;
  num_rx_rings = 1;
  num_rx_descs = 2;
  rx_rings = no_rx_ring ∷ [];
}

new_if-Shares_example :
    (t : NewIf) × (new_if 2048 two_slots allocator adapter ≡ some t)
    × Shares 2048 two_slots allocator adapter t
new_if-Shares_example = new_if-Shares 2048 two_slots allocator adapter allocator-IsSound refl

-- A pool of five rings, all in use, and an adapter whose second ring is, since an earlier
-- registration, the address of object 3.
abbrev page : ℕ → AddrTblItem
page i = record { vaddr = i * 4096; paddr = i * 4096 }

abbrev full : ObjPool
full = record five {
  obj_free = 0;
  bitmap = 0 ∷ [];
  addr_tbl = page 1 ∷ page 2 ∷ page 3 ∷ page 4 ∷ page 5 ∷ [];
}

abbrev stale : RxRing
stale = record no_rx_ring { addr = 4 * 4096 }

-- Object 3 of another interface is free afterwards.
freed_in_use : is_free (free_rings full (stale ∷ [])) 3 ≡ 1
unfolding free_rings obj_free_va free_va_from rel_ofs obj_free_index
freed_in_use = refl

abbrev two_rings : DpaAdapter
two_rings = record adapter { num_rx_rings = 2; rx_rings = no_rx_ring ∷ stale ∷ [] }

abbrev no_rings : MemAllocator
no_rings = record allocator { ring_pool = full }

if_taken : obj_malloc five 40 ≡ some (record five { bitmap = 4294967280 ∷ []; obj_free = 1 }, 4096)
unfolding obj_malloc search find_bit grab grab_at with_addr
if_taken = refl

none_left : obj_malloc full 64 ≡ some (full, 0)
unfolding obj_malloc
none_left = refl

stale-Points : Points full (stale ∷ []) (some 3 ∷ [])
unfolding rel_ofs
stale-Points = (
  (λ e. absurd (omega (arith, e))),
  (3, omega arith, passed, refl, refl, omega arith, omega arith, omega arith),
  tt,
)
  where
    passed :
        (i : ℕ)
        → i < 3
        → (let base = (get_or full.addr_tbl (u32 (i * 1)) no_item).vaddr in
            ltb 16384 base || (ltb (rel_ofs 16384 base) (2 ^ 63) && leb 4096 (rel_ofs 16384 base)))
          ≡ true
    passed zero h = refl
    passed (suc zero) h = refl
    passed (suc (suc zero)) h = refl
    passed (suc (suc (suc i))) h = absurd (omega (arith, h))

new_if-frees_stale_example :
    (t : NewIf) × (new_if 2048 two_slots no_rings two_rings ≡ some t)
    × (t.dif ≡ 0)
    × (t.adapter ≡ record two_rings { rx_rings = no_rx_ring ∷ stale ∷ [] })
    × (is_free t.pools.ring_pool 3 ≡ 1)
    × (t.pools.buf_pool ≡ five)
new_if-frees_stale_example =
    new_if-frees_stale 2048 two_slots no_rings two_rings
      (record five { bitmap = 4294967280 ∷ []; obj_free = 1 }) full 4096 1 no_rx_ring (stale ∷ [])
      (some 3 ∷ []) 3 if_taken (omega arith) (unfold ltb_i32 in refl) refl refl none_left
      stale-Points (inl refl)
