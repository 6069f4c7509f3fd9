-- ===== src/Ring/Index.antt =====
-- Index arithmetic of kernel/dpa_k.h and lib/dpa_u.h: the maps between the network card's ring
-- and the kernel's ring.
use dpa.Prelude.{ℕ, ◌+◌, ◌-◌, ◌%◌, ◌^◌, ◌≤◌, ◌<◌, ◌≡◌, arith}
use dpa.Prelude.Mod.{mod_cases}
use dpa.Prelude.Word.{ltb_i32}
use dpa.Ring.{DpaRing, Kring, ring_next, idx_n2k, idx_k2n}

-- The offset between the two rings is a proper one, and the sum of two indices fits an int.
pub record IsMapped (kr : Kring) : Type 0 where
  pub some_slots : 0 < kr.nkr_num_slots
  pub small : kr.nkr_num_slots ≤ 2 ^ 30
  pub offset_in : kr.nkr_hwofs < kr.nkr_num_slots

pub idx_n2k-eq :
    {kr : Kring} (i : ℕ)
    → IsMapped kr
    → i < kr.nkr_num_slots
    → idx_n2k kr i ≡ (i + kr.nkr_hwofs) % kr.nkr_num_slots
unfolding idx_n2k ltb_i32
idx_n2k-eq {kr} i m h = ground (arith, mod_cases (i + kr.nkr_hwofs) kr.nkr_num_slots)

pub idx_k2n-eq :
    {kr : Kring} (i : ℕ)
    → IsMapped kr
    → i < kr.nkr_num_slots
    → idx_k2n kr i ≡ (i + kr.nkr_num_slots - kr.nkr_hwofs) % kr.nkr_num_slots
unfolding idx_k2n ltb_i32
idx_k2n-eq {kr} i m h =
    ground (arith, mod_cases (i + kr.nkr_num_slots - kr.nkr_hwofs) kr.nkr_num_slots)

-- On a kernel ring whose offset is below its number of slots, and that number at most 2 ^ 30, the
-- two maps stay in the ring and undo one another.
pub idx_n2k-idx_k2n :
    {kr : Kring} (i : ℕ)
    → IsMapped kr
    → i < kr.nkr_num_slots
    → (idx_n2k kr (idx_k2n kr i) ≡ i)
      × (idx_k2n kr (idx_n2k kr i) ≡ i)
      × (idx_n2k kr i < kr.nkr_num_slots)
      × (idx_k2n kr i < kr.nkr_num_slots)
idx_n2k-idx_k2n {kr} i m h = ground (
  arith,
  idx_n2k-eq i m,
  idx_k2n-eq i m,
  idx_n2k-eq (idx_k2n kr i) m,
  idx_k2n-eq (idx_n2k kr i) m,
  mod_cases (i + kr.nkr_hwofs) kr.nkr_num_slots,
  mod_cases (i + kr.nkr_num_slots - kr.nkr_hwofs) kr.nkr_num_slots,
  mod_cases (idx_k2n kr i + kr.nkr_hwofs) kr.nkr_num_slots,
  mod_cases (idx_n2k kr i + kr.nkr_num_slots - kr.nkr_hwofs) kr.nkr_num_slots,
)

-- DPA_RING_NEXT goes one step round the ring.
pub ring_next-eq :
    (r : DpaRing) (i : ℕ)
    → r.num_slots < 2 ^ 32
    → i < r.num_slots
    → ring_next r i ≡ (i + 1) % r.num_slots
unfolding ring_next
ring_next-eq r i s h = ground (arith, mod_cases (i + 1) r.num_slots)

-- The network card's successor is mapped to the kernel's.
pub idx_n2k-next :
    {kr : Kring} (i : ℕ)
    → IsMapped kr
    → i < kr.nkr_num_slots
    → idx_n2k kr ((i + 1) % kr.nkr_num_slots) ≡ (idx_n2k kr i + 1) % kr.nkr_num_slots
idx_n2k-next {kr} i m h = ground (
  arith,
  idx_n2k-eq i m,
  idx_n2k-eq ((i + 1) % kr.nkr_num_slots) m,
  mod_cases (i + 1) kr.nkr_num_slots,
  mod_cases (i + kr.nkr_hwofs) kr.nkr_num_slots,
  mod_cases ((i + 1) % kr.nkr_num_slots + kr.nkr_hwofs) kr.nkr_num_slots,
  mod_cases (idx_n2k kr i + 1) kr.nkr_num_slots,
)
