-- ===== src/Entry/Tests.antt =====
-- Runs of the entry points of kernel/dpa_main.c.
use dpa.Prelude.{ℕ, zero, suc, ◌+◌, ◌*◌, ◌≤◌, ◌<◌, ◌≡◌, [], ◌∷◌, true, some, get_elem?, arith, refl}
use dpa.Pool.{ObjPool, AddrTblItem, rel_ofs, is_outside}
use dpa.Pool.Samples.{five}
use dpa.Memory.{MemAllocator, ring_offset}
use dpa.Entry.{Loaded, mappings}
use dpa.Entry.Mapped.{base_of, Fits, InCluster, ring_offset-mapped}

-- The numbers that the parameters have if none are given, but for the sizes.
abbrev given : Loaded
given = record {
  params = record { num_ifs = 4; num_queues = 40; num_bufs = 0; buf_size = 3000 };
  num_rx_descs = 1;
}

abbrev page : ℕ → AddrTblItem
page i = record { vaddr = i * 4096; paddr = 65536 + i * 4096 }

abbrev pages : ObjPool
pages = record five { addr_tbl = page 1 ∷ page 2 ∷ page 3 ∷ page 4 ∷ page 5 ∷ [] }

abbrev allocator : MemAllocator
allocator = record { total_size = 61440; if_pool = five; ring_pool = pages; buf_pool = five }

pages-Fits : (user : ℕ) → user ≤ 20480 → Fits pages user
pages-Fits user h = record {
  table = refl;
  entries = omega arith;
  total = omega arith;
  space = omega arith;
  size = refl;
}

five-Fits : Fits five 0
five-Fits = record {
  table = refl;
  entries = omega arith;
  total = omega arith;
  space = omega arith;
  size = refl;
}

in_second : InCluster pages 1 8292
unfolding rel_ofs is_outside
in_second = record { cluster = omega arith; here = refl; earlier = before }
  where
    before : (k : ℕ) → k < 1 → is_outside pages (rel_ofs 8292 (base_of pages k)) ≡ true
    before zero h = refl
    before (suc k) h = absurd (omega arith)

ring_offset-mapped_example :
    (get_elem? (mappings allocator) 6 ≡ some (record { user = 24576; paddr = 73728; size = 4096 }))
    × (ring_offset allocator 8292 ≡ 24576 + rel_ofs 8292 8192)
    × (rel_ofs 8292 8192 < 4096)
ring_offset-mapped_example =
    ring_offset-mapped allocator 1 8292 five-Fits (pages-Fits 20480 (omega arith)) in_second
