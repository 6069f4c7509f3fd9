-- ===== src/Bnx2/Config.antt =====
-- drivers/bnx2-2.1.11: the size of the card's ring (bnx2.c), and how the driver's part of the module
-- fills a ring, switches an interface and hooks its adapter in (bnx2_dpa.h). What is done to the
-- card otherwise is left out; what it comes to is an argument.
pub mod Sizes
pub mod Armed
mod Tests
use dpa.Prelude.{
  ℕ, zero, suc, ◌+◌, ◌-◌, ◌*◌, ◌/◌, ◌%◌, ◌^◌, List, [], Bool, true, false, not, ◌&&◌, Option, none,
  some, bit_and, if◌then◌else◌, ◌==◌, leb, get_or, set, min,
}
use dpa.Prelude.Word.{u32, add32, sub32}
use dpa.Ring.{DpaSlot, no_slot, Kring, idx_n2k}
use dpa.Sync.{Env, buf_vpa}
use dpa.Netdev.{Errno, einval, DpaAdapter, NetDev, no_rx_ring, reset, attach_to}
use dpa.Bnx2.{RxBd, RxRingInfo, Bnx2Dev, rx_ring_idx, next_rx_bd}

-- The number of packets that the probe of the card settles on, given dpa_num_rx_descs
unfoldable pub dpa_rx_ring_count : ℕ → ℕ
dpa_rx_ring_count num_rx_descs =
    let n = min num_rx_descs 1020 in if n % 255 == 0 then n else (n / 255 + 1) * 255

-- The two loops of bnx2_find_max_ring; `while (ring_size > MAX_RX_DESC_CNT)` leaves num_rings.
unfoldable pub count_rings : ℕ → ℕ → ℕ → ℕ
count_rings zero ring_size num_rings = num_rings
count_rings (suc f) ring_size num_rings =
    let rest = count_rings f (ring_size - 255) (num_rings + 1) in
    if leb ring_size 255 then num_rings else rest

unfoldable pub highest_bit : ℕ → ℕ → ℕ → ℕ
highest_bit zero max num_rings = max
highest_bit (suc f) max num_rings =
    let rest = highest_bit f (max / 2) num_rings in if bit_and max num_rings == 0 then rest else max

-- bnx2_find_max_ring; each turn of the first loop takes 255 off, and of the second halves `max`.
unfoldable pub find_max_ring : ℕ → ℕ → ℕ
unfolding count_rings highest_bit
find_max_ring ring_size max_size =
    let num_rings = count_rings ring_size ring_size 1 in
    let max = highest_bit max_size max_size num_rings in
    if num_rings == max then max else u32 (max * 2)

-- bnx2_set_rx_ring_size, the part that is about the ring; the size of a buffer, from the MTU, is
-- as it was set.
unfoldable pub set_rx_ring_size : Bnx2Dev → ℕ → Bnx2Dev
set_rx_ring_size bp size = record bp {
  rx_ring_size = size;
  rx_max_ring_idx = sub32 (find_max_ring size 4 * 256) 1;
}

-- One turn of the loop of bnx2_dpa_conf_rx_ring, and the loop with n entries to go
unfoldable pub conf_bd : Env → Bnx2Dev → Kring → List DpaSlot → ℕ → RxRingInfo → RxRingInfo
conf_bd env bp kr slots ring_prod r =
    let item = buf_vpa env (get_or slots (idx_n2k kr ring_prod) no_slot) in
    record r {
      bds = set r.bds ring_prod (record {
        desc = item.vaddr;
        mapping = item.paddr;
        haddr_hi = item.paddr / 2 ^ 32;
        haddr_lo = item.paddr % 2 ^ 32;
      });
      rx_prod_bseq = add32 r.rx_prod_bseq bp.rx_buf_use_size;
    }

unfoldable pub conf_bds : Env → Bnx2Dev → Kring → List DpaSlot → ℕ → ℕ → ℕ → RxRingInfo → RxRingInfo
conf_bds env bp kr slots zero prod ring_prod r = record r { rx_prod = prod }
conf_bds env bp kr slots (suc n) prod ring_prod r =
    let next = next_rx_bd prod in
    conf_bds env bp kr slots n next (rx_ring_idx bp next) (conf_bd env bp kr slots ring_prod r)

unfoldable pub conf_slots :
    Env → Bnx2Dev → ℕ → RxRingInfo → NetDev × Option (List DpaSlot) → NetDev × RxRingInfo × Bool
conf_slots env bp ring_id r (d, none) = (d, r, false)
conf_slots env bp ring_id r (d, some slots) =
    let kr = (get_or d.adapter.rx_rings ring_id no_rx_ring).kring in
    (d, conf_bds env bp kr slots bp.rx_ring_size r.rx_prod r.rx_prod r, true)

-- bnx2_dpa_conf_rx_ring: the device, the ring, and what it returns
unfoldable pub conf_rx_ring : Env → Bnx2Dev → NetDev → ℕ → RxRingInfo → NetDev × RxRingInfo × Bool
conf_rx_ring env bp d ring_id r = conf_slots env bp ring_id r (reset d ring_id 0)

-- What bnx2_dpa_reg finds: IFF_UP and netif_running, what the card's start comes to (bnx2_alloc_mem,
-- bnx2_request_irq and bnx2_init_nic, the first that fails), dpa_flag_alter_promisc, and what
-- dev_set_promiscuity returns.
pub record BnxEnv : Type 0 where
  pub up : Bool
  pub running : Bool
  pub restart : Option Errno
  pub alter_promisc : Bool
  pub promiscuity : Option Errno

unfoldable pub restarted : BnxEnv → NetDev → Option Errno → NetDev × Option Errno
restarted env d none = (d, (if env.alter_promisc then env.promiscuity else none))
restarted env d (some e) = (d, some e)

-- bnx2_dpa_reg
unfoldable pub bnx2_reg : BnxEnv → Bool → NetDev → NetDev × Option Errno
bnx2_reg env reg d =
    if d.hook == 0
    then (d, some einval)
    else if not env.up && reg
    then (d, some einval)
    else restarted env (record d { enabled = reg })
        (if env.up && env.running then env.restart else none)

-- bnx2_dpa_attach: the adapter that is hooked in at the address that kmalloc gives
unfoldable pub bnx2_attach : ℕ → Bnx2Dev → ℕ → Option NetDev → Option NetDev × Option Errno
bnx2_attach mem bp num_rx_rings d =
    attach_to mem
      (record {
        magic = 0;
        refs = 0;
        excl_locks = true;
        dev_model = 3;
        num_rx_rings = num_rx_rings;
        num_rx_descs = add32 bp.rx_max_ring_idx 1;
        rx_rings = [];
      })
      d
