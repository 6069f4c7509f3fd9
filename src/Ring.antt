-- ===== src/Ring.antt =====
-- The packet ring that the kernel shares with a process (kernel/dpa_c.h, lib/dpa_u.h), and the
-- kernel's side of it (kernel/dpa_k.h). An `int` is its two's complement pattern.
pub mod Index
pub mod Reinit
mod Tests
use dpa.Prelude.{ℕ, ◌+◌, ◌-◌, ◌%◌, ◌^◌, ◌*◌, ◌≤◌, ◌<◌, ◌≡◌, List, if◌then◌else◌, ◌==◌, ltb, leb}
use dpa.Prelude.Word.{add32, sub32, ltb_i32}

-- struct dpa_slot
pub record DpaSlot : Type 0 where
  pub buf_idx : ℕ
  pub len : ℕ
  pub info : ℕ

abbrev pub no_slot : DpaSlot
no_slot = record { buf_idx = 0; len = 0; info = 0 }

-- struct dpa_ring; `ts` and `flags` are never read.
pub record DpaRing : Type 0 where
  pub buf_ofs : ℕ
  pub num_slots : ℕ
  pub avail : ℕ
  pub cur : ℕ
  pub reserved : ℕ
  pub hw_ofs : ℕ
  pub buf_size : ℕ
  pub slot : List DpaSlot

-- struct dpa_kring, without its locks, its wait queue and its pointer to the adapter.
pub record Kring : Type 0 where
  pub ring : DpaRing
  pub nr_hwcur : ℕ
  pub nr_hwavail : ℕ
  pub nr_kflags : ℕ
  pub nkr_num_slots : ℕ
  pub nkr_hwofs : ℕ
  pub total_packets : ℕ
  pub total_bytes : ℕ

-- DPA_RING_NEXT
unfoldable pub ring_next : DpaRing → ℕ → ℕ
ring_next r i = if add32 i 1 == r.num_slots then 0 else add32 i 1

-- DPA_RING_FIRST_RESERVED
unfoldable pub ring_first_reserved : DpaRing → ℕ
ring_first_reserved r =
    if ltb r.cur r.reserved
    then sub32 (add32 r.cur r.num_slots) r.reserved
    else sub32 r.cur r.reserved

-- `x` brought into the range of the ring by at most one addition or subtraction of `n`, as
-- dpa_idx_n2k and dpa_idx_k2n both end.
unfoldable pub fold_index : ℕ → ℕ → ℕ
fold_index n x = if ltb_i32 x 0 then add32 x n else if ltb_i32 x n then x else sub32 x n

-- dpa_idx_n2k
unfoldable pub idx_n2k : Kring → ℕ → ℕ
unfolding fold_index
idx_n2k kr idx = fold_index kr.nkr_num_slots (add32 idx kr.nkr_hwofs)

-- dpa_idx_k2n
unfoldable pub idx_k2n : Kring → ℕ → ℕ
unfolding fold_index
idx_k2n kr idx = fold_index kr.nkr_num_slots (sub32 idx kr.nkr_hwofs)
