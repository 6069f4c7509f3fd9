-- ===== src/Client/Tests.antt =====
-- Handles of lib/libdpa.c that are opened and closed.
use dpa.Prelude.{ℕ, ◌+◌, ◌≡◌, ◌≢◌, [], ◌∷◌, none, some, arith, refl}
use dpa.Prelude.Word.{u64}
use dpa.Netdev.{dpa_magic}
use dpa.Queue.{DupQueue}
use dpa.Raw.{DpaStats}
use dpa.Client.{
  null, at, Handle, Process, RawCalls, DupCalls, raw_open, raw_opened, raw_info, raw_mapped,
  dpa_open, mode_close, dup_get_rx_stats,
}
use dpa.Client.Held.{open_failed-unclosable}
use dpa.Client.Closed.{dpa_open-mode_close}
use dpa.Client.Drops.{total_drops, dup_get_rx_stats-adds}

abbrev handle : Handle
handle = record {
  fd = none;
  mode = 0;
  dev_model = 0;
  addr = null;
  mem_size = 0;
  num_queues = 0;
  dev_cap = 0;
}

abbrev process : Process
process = record { fds = 0 ∷ 1 ∷ 2 ∷ []; maps = [] }

abbrev calls : RawCalls
calls = record {
  open_dev = some 3;
  info = some (record { mem_size = 8192; num_rx_queues = 2; dev_model = 1 });
  map = some 65536;
}

-- Descriptor 3 is opened, and then there is no memory.
abbrev no_map : RawCalls
no_map = record calls { map = none }

abbrev shm : DupCalls
shm = record {
  open_shm = none;
  size = some 4096;
  map = none;
  head = record { magic = dpa_magic; mem_size = 4096; num_queues = 2; dev_cap = 0 };
}

open_failed-unclosable_example :
    let (h', q, e) = dpa_open no_map shm (some 4) 0 0 handle process in
    ((mode_close h' q).0 ≡ q) × ((mode_close h' q).1 ≢ 0)
open_failed-unclosable_example =
    open_failed-unclosable no_map shm (some 4) 0 0 handle process (omega arith)
      (unfold dpa_open raw_open in (λ z. omega (arith, z)))

left_open : (dpa_open no_map shm (some 4) 0 0 handle process).1.fds ≡ 3 ∷ 0 ∷ 1 ∷ 2 ∷ []
unfolding dpa_open raw_open raw_opened raw_info raw_mapped
left_open = refl

dpa_open-mode_close_example :
    let (h', q, e) = dpa_open calls shm (some 4) 0 0 handle process in
    mode_close h' q ≡ (process, 0)
dpa_open-mode_close_example =
    dpa_open-mode_close calls shm (some 4) 0 0 handle process refl
      (unfold dpa_open raw_open in refl) (unfold dpa_open raw_open in (λ z. omega (arith, z)))

abbrev queues : ℕ → DupQueue
queues i = record {
  queue_id = i;
  num_slots = 4;
  slot_size = 2048;
  widx = 0;
  ridx = 0;
  mask = 3;
  drop_packets = 5;
  drop_bytes = 0;
  slot_offs = 128;
}

-- The caller asks again with what it got before.
abbrev before : DpaStats
before = record { enabled = 1; packets = 0; bytes = 0; drops = 10; errors = 0 }

dup_get_rx_stats-adds_example :
    let (found, e) =
      dup_get_rx_stats (record handle { addr = at 4096 }) shm.head queues 4 4096 before in
    (e ≡ 0)
    × (found.enabled ≡ 1)
    × (found.packets ≡ 0)
    × (u64 found.drops ≡ u64 (10 + total_drops 2 0 queues))
dup_get_rx_stats-adds_example =
    dup_get_rx_stats-adds (record handle { addr = at 4096 }) shm.head queues before refl refl
