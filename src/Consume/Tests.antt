-- ===== src/Consume/Tests.antt =====
-- Runs of dup_loop (lib/dup_intf.c) on a queue of four slots with one packet to read.
use dpa.Prelude.{ℕ, ◌≡◌, List, [], ◌∷◌, inr, arith, refl}
use dpa.Prelude.Word.{ltb_i32}
use dpa.Window.{window}
use dpa.Queue.{DupQueue, IsReady, used, read_avali, write_avali, widx_offset}
use dpa.Forward.{DupSlot, Copy, open_copy}
use dpa.Forward.Put.{IsOpen}
use dpa.Consume.{Reader, loop_turn}
use dpa.Consume.Delivery.{run_each, loop_turn-delivers}

abbrev four_slots : DupQueue
four_slots = record {
  queue_id = 0;
  num_slots = 4;
  slot_size = 2048;
  widx = 3;
  ridx = 2;
  mask = 3;
  drop_packets = 0;
  drop_bytes = 0;
  slot_offs = 128;
}

four_slots-IsReady : IsReady four_slots
four_slots-IsReady = record {
  log = 2;
  size = refl;
  mask_eq = refl;
  small = omega arith;
  widx_in = omega arith;
  ridx_in = omega arith;
}

abbrev slots : ℕ → DupSlot
slots i = record { len = i; info = 0; packet = [] }

-- The caller keeps the packets, the last first.
abbrev keep : DupSlot → List DupSlot → List DupSlot
keep x xs = x ∷ xs

abbrev reader : Reader
reader = record { queue = four_slots; slots = slots; ridx = 2 }

loop_turn-delivers_example :
    let (r', u') = loop_turn keep reader [] in
    (u' ≡ run_each keep (window slots 4 2 (used four_slots)) [])
    × IsReady r'.queue
    × (read_avali r'.queue ≡ 0)
    × (r'.ridx ≡ r'.queue.ridx)
loop_turn-delivers_example = loop_turn-delivers keep reader [] four_slots-IsReady refl

abbrev copy : Copy
copy = open_copy four_slots slots

copy-IsOpen : IsOpen copy
unfolding open_copy widx_offset write_avali used ltb_i32
copy-IsOpen = record {
  counted = record {
    ready = four_slots-IsReady;
    widx_in = omega arith;
    room = omega arith;
    behind = omega arith;
  };
  fresh = inr (omega arith);
}
