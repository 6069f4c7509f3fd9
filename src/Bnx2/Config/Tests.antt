-- ===== src/Bnx2/Config/Tests.antt =====
-- Runs of the bnx2 driver's part of the module (drivers/bnx2-2.1.11), on a ring of two pages.
use dpa.Prelude.{ℕ, ◌+◌, ◌≡◌, [], ◌∷◌, true, false, inl, refl, arith, replicate, get_or}
use dpa.Ring.{no_slot, Kring, idx_n2k}
use dpa.Prelude.Word.{ltb_i32}
use dpa.Pool.{AddrTblItem}
use dpa.Sync.{Env}
use dpa.Netdev.{NetDev, no_ring, no_rx_ring, reset}
use dpa.Bnx2.{
  L2Fhdr, no_bd, RxRingInfo, Bnx2Dev, BnxRx, rx_ring, links, reap_all, reap, read_again, reap_one,
  get_hw_rx_cons, enter_reaped, rx_ring_idx, next_rx_bd,
}
use dpa.Bnx2.Pages.{HasPages, index_after, place, passed}
use dpa.Bnx2.Reaps.{IsAligned}
use dpa.Bnx2.Counts.{Reaps, reap_all-Reaps}
use dpa.Bnx2.Config.{conf_rx_ring}
use dpa.Bnx2.Config.Sizes.{configured, configured-HasPages, links-passed_short}
use dpa.Bnx2.Config.Armed.{IsArmed, conf_rx_ring-IsArmed}

abbrev card : Bnx2Dev
card = record { rx_ring_size = 510; rx_max_ring_idx = 511; rx_buf_use_size = 1536; rx_mode = 0 }

card-HasPages : HasPages card 2
card-HasPages = record { two_or_four = inl refl; size = refl; last = refl }

abbrev nic : RxRingInfo
nic = record { bds = replicate 512 no_bd; rx_cons = 250; rx_prod = 0; rx_prod_bseq = 0; bidx = 0 }

-- Slot i has buffer 2.
abbrev kring : Kring
kring = record (no_rx_ring.kring) {
  ring = record no_ring { num_slots = 512; slot = replicate 512 (record no_slot { buf_idx = 2 }) };
  nr_hwcur = 250;
  nkr_num_slots = 512;
}

kring-IsAligned : IsAligned kring 2
kring-IsAligned = record { slots = refl; offset = refl; avail = omega arith }

abbrev state : BnxRx
state = record { kring = kring; nic = nic }

abbrev header : ℕ → L2Fhdr
header addr = record { status = 64; vlan_tag = 4097; pkt_len = 64 }

-- Ten packets, the sixth of which is past a link.
reap_all-Reaps_example :
    Reaps card
      (λ t. 261)
      header
      card-HasPages
      state
      kring-IsAligned
      250
      10
      (reap_all card (λ t. 261) header state)
reap_all-Reaps_example =
    reap_all-Reaps card (λ t. 261) header card-HasPages state kring-IsAligned 250 10 refl
      (omega arith) (λ t. refl) (omega arith)

eleven_entries : (reap_all card (λ t. 261) header state).kring.nr_hwavail ≡ 11
unfolding reap_all reap read_again reap_one get_hw_rx_cons enter_reaped next_rx_bd links rx_ring
    idx_n2k ltb_i32 rx_ring_idx
eleven_entries = refl

configured_300-HasPages : HasPages (configured card 300) 2
configured_300-HasPages = configured-HasPages card 300 (omega arith) (inl (omega arith))

links-passed_short_example :
    ((configured card 600).rx_max_ring_idx ≡ 1023)
    × (links (configured card 600) (rx_ring (place 4 1019)) (rx_ring (place 4 1020)) 1 + 1
        ≡ passed 1019 1)
links-passed_short_example =
    links-passed_short card 600 1019 1 (omega arith) (omega arith) (omega arith) (omega arith)

abbrev item : ℕ → ℕ → AddrTblItem
item v p = record { vaddr = v; paddr = p }

abbrev env : Env
env = record {
  carrier_ok = true;
  pend_intr = false;
  total_buffers = 3;
  buf_size = 2048;
  buffer_base = 4096;
  atbl = item 4096 0 ∷ item 6144 0 ∷ item 8192 65536 ∷ [];
}

-- The ring has counted five entries from 250 on before the card begins again.
abbrev device : NetDev
device = record {
  enabled = true;
  hook = 8192;
  adapter = record {
    magic = 0;
    refs = 1;
    excl_locks = true;
    dev_model = 3;
    num_rx_rings = 1;
    num_rx_descs = 512;
    rx_rings = record { addr = 8192; kring = record kring { nr_hwavail = 5 } } ∷ [];
  };
  users = 1;
  drivers = [];
}

abbrev fresh : RxRingInfo
fresh = record nic { rx_cons = 0 }

conf_rx_ring-IsArmed_example :
    let (d', slots) = reset device 0 0 in
    let (d'', r', done) = conf_rx_ring env card device 0 fresh in
    (d'' ≡ d')
    × (done ≡ true)
    × IsArmed env (get_or d'.adapter.rx_rings 0 no_rx_ring).kring kring.ring.slot r' (place 2 300)
    × (r'.rx_prod ≡ index_after 510)
unfolding reset rx_ring_idx
conf_rx_ring-IsArmed_example =
    conf_rx_ring-IsArmed env card 2 device (reset device 0 0).0 kring.ring.slot 0 fresh 0 300
      card-HasPages refl refl refl refl (omega arith)
