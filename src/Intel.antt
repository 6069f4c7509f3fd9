-- ===== src/Intel.antt =====
-- What drivers/igb-3.0.6/igb_dpa.h and drivers/ixgbe-3.4.8/ixgbe_dpa.h have besides igb's rx_sync and
-- reg: how a ring is filled after a reset, how the adapter is hooked in, and the ixgbe driver's
-- rx_sync and reg, which are igb's but for the names of the card's registers.
pub mod Armed
mod Tests
use dpa.Prelude.{
  ℕ, zero, suc, ◌+◌, ◌-◌, ◌%◌, ◌^◌, List, [], Bool, true, false, Option, none, some, get_or, set,
}
use dpa.Prelude.Word.{sub32}
use dpa.Ring.{DpaSlot, no_slot, Kring, idx_n2k}
use dpa.Netdev.{Errno, NetDev, no_rx_ring, reset, attach_to}
use dpa.Sync.{RxDesc, no_desc, NicRing, Env, Rx, buf_vpa, rx_sync}
use dpa.Registry.Igb.{IgbEnv, igb_reg}

-- The loops over the descriptors, n of them from i on. igb's write of `hdr_addr` is one to the status,
-- the length and the VLAN tag, which stand in the same place.
unfoldable pub igb_conf_descs : Env → Kring → List DpaSlot → ℕ → ℕ → List RxDesc → List RxDesc
igb_conf_descs env kr slots zero i descs = descs
igb_conf_descs env kr slots (suc n) i descs = igb_conf_descs env kr slots n (i + 1) (
    set descs i (record {
      status_error = 0;
      length = 0;
      vlan = 0;
      pkt_addr = (buf_vpa env (get_or slots (idx_n2k kr i) no_slot)).paddr;
    }))

unfoldable pub ixgbe_conf_descs : Env → Kring → List DpaSlot → ℕ → ℕ → List RxDesc → List RxDesc
ixgbe_conf_descs env kr slots zero i descs = descs
ixgbe_conf_descs env kr slots (suc n) i descs = ixgbe_conf_descs env kr slots n (i + 1) (
    set descs i (record (get_or descs i no_desc) {
      pkt_addr = (buf_vpa env (get_or slots (idx_n2k kr i) no_slot)).paddr;
    }))

-- igb_dpa_conf_rx_ring of a ring of `count` descriptors: the device, the ring, and what it returns
unfoldable pub igb_conf_slots :
    Env → ℕ → ℕ → NicRing → NetDev × Option (List DpaSlot) → NetDev × NicRing × Bool
igb_conf_slots env count reg_idx nic (d, none) = (d, nic, false)
igb_conf_slots env count reg_idx nic (d, some slots) =
    let kr = (get_or d.adapter.rx_rings reg_idx no_rx_ring).kring in
    (
      d,
      record nic {
        desc = igb_conf_descs env kr slots count 0 nic.desc;
        next_to_use = 0;
        tail = sub32 (sub32 count 1) kr.nr_hwavail;
      },
      true,
    )

unfoldable pub igb_conf_rx_ring : Env → ℕ → NetDev → ℕ → NicRing → NetDev × NicRing × Bool
unfolding igb_conf_slots
igb_conf_rx_ring env count d reg_idx nic = igb_conf_slots env count reg_idx nic (reset d reg_idx 0)

-- ixgbe_dpa_conf_rx_ring, whose ring has `num_rx_descs` descriptors
unfoldable pub ixgbe_conf_slots :
    Env → ℕ → NicRing → NetDev × Option (List DpaSlot) → NetDev × NicRing × Bool
ixgbe_conf_slots env reg_idx nic (d, none) = (d, nic, false)
ixgbe_conf_slots env reg_idx nic (d, some slots) =
    let kr = (get_or d.adapter.rx_rings reg_idx no_rx_ring).kring in
    let count = d.adapter.num_rx_descs in
    (
      d,
      record nic {
        desc = ixgbe_conf_descs env kr slots count 0 nic.desc;
        tail = sub32 (sub32 count 1) kr.nr_hwavail;
      },
      true,
    )

unfoldable pub ixgbe_conf_rx_ring : Env → NetDev → ℕ → NicRing → NetDev × NicRing × Bool
unfolding ixgbe_conf_slots
ixgbe_conf_rx_ring env d reg_idx nic = ixgbe_conf_slots env reg_idx nic (reset d reg_idx 0)

-- igb_dpa_attach and ixgbe_dpa_attach, with the numbers of queues and of descriptors
unfoldable pub igb_attach : ℕ → ℕ → ℕ → Option NetDev → Option NetDev × Option Errno
igb_attach mem num_rx_queues rx_ring_count d =
    attach_to mem
      (record {
        magic = 0;
        refs = 0;
        excl_locks = true;
        dev_model = 1;
        num_rx_rings = num_rx_queues;
        num_rx_descs = rx_ring_count;
        rx_rings = [];
      })
      d

unfoldable pub ixgbe_attach : ℕ → ℕ → ℕ → Option NetDev → Option NetDev × Option Errno
ixgbe_attach mem num_rx_queues rx_ring_count d =
    attach_to mem
      (record {
        magic = 0;
        refs = 0;
        excl_locks = true;
        dev_model = 2;
        num_rx_rings = num_rx_queues;
        num_rx_descs = rx_ring_count;
        rx_rings = [];
      })
      d

-- ixgbe_dpa_rx_sync and ixgbe_dpa_reg
unfoldable pub ixgbe_rx_sync : Env → Bool → Rx → Option (Rx × ℕ)
unfolding rx_sync
ixgbe_rx_sync = rx_sync

unfoldable pub ixgbe_reg : IgbEnv → Bool → NetDev → NetDev × Option Errno
unfolding igb_reg
ixgbe_reg = igb_reg
