-- ===== src/Pool/Samples.antt =====
-- A small pool of kernel/dpa_mem.c for runs.
use dpa.Prelude.{ℕ, zero, suc, ◌^◌, ◌<◌, ◌≢◌, [], ◌∷◌, refl, arith, get_or, replicate}
use dpa.Pool.{ObjPool, no_item}
use dpa.Pool.Take.{IsPool}

-- Five objects of a page each, of which 2 and 4 are free; the bits past the last object are set.
abbrev pub five : ObjPool
five = record {
  obj_total = 5;
  obj_free = 2;
  clst_n_entries = 1;
  num_clusters = 5;
  clst_size = 4096;
  obj_size = 4096;
  mem_total = 20480;
  addr_tbl = replicate 5 (record { vaddr = 4096; paddr = 4096 });
  bitmap = 4294967284 ∷ [];
}

pub five-IsPool : IsPool five
five-IsPool = record {
  total_small = omega arith;
  total_two = omega arith;
  words = omega arith;
  entries = refl;
  counted = refl;
  word_small = small;
  zero_kept = refl;
  one_kept = refl;
  has_addr = addr;
}
  where
    small : (i : ℕ) → get_or five.bitmap i 0 < 2 ^ 32
    small zero = omega arith
    small (suc i) = omega arith

    addr : (i : ℕ) → i < 5 → (get_or five.addr_tbl i no_item).vaddr ≢ 0
    addr zero h e = absurd (omega (arith, e))
    addr (suc zero) h e = absurd (omega (arith, e))
    addr (suc (suc zero)) h e = absurd (omega (arith, e))
    addr (suc (suc (suc zero))) h e = absurd (omega (arith, e))
    addr (suc (suc (suc (suc zero)))) h e = absurd (omega (arith, e))
    addr (suc (suc (suc (suc (suc i))))) h e = absurd (omega arith)
