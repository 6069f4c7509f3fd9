-- ===== src/Intel/Tests.antt =====
-- Runs of igb_dpa_conf_rx_ring (drivers/igb-3.0.6/igb_dpa.h) on a ring of four slots.
use dpa.Prelude.{ℕ, [], ◌∷◌, true, false, refl, arith, replicate}
use dpa.Pool.{AddrTblItem}
use dpa.Ring.{no_slot}
use dpa.Netdev.{NetDev, no_ring, no_rx_ring}
use dpa.Sync.{NicRing, Env, no_desc}
use dpa.Intel.{igb_conf_rx_ring}
use dpa.Intel.Armed.{IsFree, ring_of, igb_conf_rx_ring-IsFree}

abbrev item : ℕ → ℕ → AddrTblItem
item v p = record { vaddr = v; paddr = p }

abbrev env : Env
env = record {
  carrier_ok = true;
  pend_intr = false;
  total_buffers = 3;
  buf_size = 2048;
  buffer_base = 4096;
  atbl = item 4096 0 ∷ item 6144 0 ∷ item 8192 65536 ∷ [];
}

-- Two slots, 3 and 0, are counted when the card begins again.
abbrev device : NetDev
device = record {
  enabled = true;
  hook = 8192;
  adapter = record {
    magic = 0;
    refs = 1;
    excl_locks = true;
    dev_model = 1;
    num_rx_rings = 1;
    num_rx_descs = 4;
    rx_rings =
        record {
          addr = 8192;
          kring = record (no_rx_ring.kring) {
            ring = record no_ring {
              num_slots = 4;
              slot = replicate 4 (record no_slot { buf_idx = 2 });
            };
            nr_hwcur = 3;
            nr_hwavail = 2;
            nkr_num_slots = 4;
          };
        }
        ∷ [];
  };
  users = 1;
  drivers = [];
}

abbrev nic : NicRing
nic = record {
  desc = replicate 4 no_desc;
  next_to_clean = 0;
  next_to_use = 0;
  tail = 0;
  nic_packets = 0;
  nic_bytes = 0;
}

igb_conf_rx_ring-IsFree_example :
    IsFree env 4 (ring_of device 0) 0 (igb_conf_rx_ring env 4 device 0 nic)
igb_conf_rx_ring-IsFree_example =
    igb_conf_rx_ring-IsFree env 4 device 0 0 nic refl (omega arith) refl (omega arith) refl
      (omega arith) (omega arith)
