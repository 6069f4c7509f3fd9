-- ===== src/Sync/Tests.antt =====
-- A run of igb_dpa_rx_sync on a ring of four slots: two packets have come in, one slot goes back.
use dpa.Prelude.{
  ℕ, zero, suc, ◌+◌, ◌%◌, ◌≤◌, ◌<◌, ◌≡◌, [], ◌∷◌, true, false, some, none, List, refl, arith,
  get_or,
}
use dpa.Prelude.Word.{u64}
use dpa.Ring.{DpaSlot}
use dpa.Sync.{
  Env, Rx, RxDesc, no_desc, is_done, buf_vpa, rx_sync, refill, release_to, checked_reserved,
}
use dpa.Sync.Harvested.{IsRun}
use dpa.Sync.Counts.{IsSound, release_end, released}
use dpa.Sync.Turn.{rx_sync-counts}
use dpa.Sync.Endless.{refill-endless}
use dpa.Sync.Released.{HasBuffers}

abbrev slot_of : ℕ → DpaSlot
slot_of i = record { buf_idx = i; len = 0; info = 0 }

abbrev finished : RxDesc
finished = record { status_error = 1; length = 60; vlan = 0; pkt_addr = 0 }

abbrev env : Env
env = record {
  carrier_ok = true;
  pend_intr = false;
  total_buffers = 6;
  buf_size = 2048;
  buffer_base = 4096;
  atbl =
      record { vaddr = 4096; paddr = 4096 }
      ∷ record { vaddr = 6144; paddr = 6144 }
      ∷ record { vaddr = 8192; paddr = 8192 }
      ∷ record { vaddr = 10240; paddr = 10240 }
      ∷ record { vaddr = 12288; paddr = 12288 }
      ∷ record { vaddr = 14336; paddr = 14336 }
      ∷ [];
}

-- One packet was counted before, and the process has released it.
abbrev state : Rx
state = record {
  kring = record {
    ring = record {
      buf_ofs = 0;
      num_slots = 4;
      avail = 0;
      cur = 1;
      reserved = 0;
      hw_ofs = 0;
      buf_size = 2048;
      slot = slot_of 2 ∷ slot_of 3 ∷ slot_of 4 ∷ slot_of 5 ∷ [];
    };
    nr_hwcur = 0;
    nr_hwavail = 1;
    nr_kflags = 0;
    nkr_num_slots = 4;
    nkr_hwofs = 0;
    total_packets = 1;
    total_bytes = 60;
  };
  nic = record {
    desc = finished ∷ finished ∷ finished ∷ no_desc ∷ [];
    next_to_clean = 1;
    next_to_use = 0;
    tail = 3;
    nic_packets = 1;
    nic_bytes = 60;
  };
}

state-bufs : HasBuffers env state.kring.ring.slot 4
unfolding buf_vpa
state-bufs zero h e = absurd (omega (arith, e))
state-bufs (suc zero) h e = absurd (omega (arith, e))
state-bufs (suc (suc zero)) h e = absurd (omega (arith, e))
state-bufs (suc (suc (suc zero))) h e = absurd (omega (arith, e))
state-bufs (suc (suc (suc (suc i)))) h e = absurd (omega arith)

state-IsSound : IsSound env state
state-IsSound = record {
  mapped = record { some_slots = omega arith; small = omega arith; offset_in = omega arith };
  cur_in = omega arith;
  hwcur_in = omega arith;
  clean_in = omega arith;
  reserved_fits = omega arith;
  bufs = state-bufs;
}

state-IsRun : IsRun state.nic.desc 4 1 2
unfolding is_done
state-IsRun = record { done = two; open_end = refl }
  where
    two : (j : ℕ) → j < 2 → is_done (get_or state.nic.desc ((1 + j) % 4) no_desc) ≡ true
    two zero h = refl
    two (suc zero) h = refl
    two (suc (suc j)) h = absurd (omega arith)

rx_sync-counts_example :
    (s' : Rx) × (rx_sync env true state ≡ some (s', 0))
    × (s'.kring.nr_hwcur ≡ release_end state)
    × (s'.kring.nr_hwavail + released state ≡ 3)
    × (s'.kring.ring.avail + s'.kring.ring.reserved ≡ s'.kring.nr_hwavail)
    × (s'.kring.ring.reserved ≡ 0)
    × (s'.nic.next_to_clean ≡ 3)
    × (u64 s'.kring.total_packets ≡ 3)
rx_sync-counts_example =
    rx_sync-counts env true state 2 refl refl state-IsSound state-IsRun (omega arith) (omega arith)

-- The process writes 2 ^ 32 - 1 in `reserved` while one packet is available.
abbrev wrapped : Rx
wrapped = record state {
  kring = record (state.kring) {
    ring = record (state.kring.ring) { avail = 1; reserved = 4294967295 };
  };
}

refill-endless_example :
    let u = release_to wrapped.kring (checked_reserved wrapped.kring) in
    (checked_reserved wrapped.kring ≡ 4294967295)
    × (4 ≤ u)
    × ((f : ℕ) (desc : List RxDesc) (n i : ℕ)
        → refill env wrapped.kring.ring.slot 3 u f desc 0 n i ≡ none)
refill-endless_example =
    refill-endless env wrapped
      (record { some_slots = omega arith; small = omega arith; offset_in = omega arith }) state-bufs
      (omega arith) (omega arith) (omega arith) (omega arith) refl
