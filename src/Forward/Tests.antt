-- ===== src/Forward/Tests.antt =====
-- Runs of the forwarding loops of duplicator/duplicator.c on a copy of four slots.
use dpa.Prelude.{
  ℕ, zero, suc, true, ◌^◌, ◌+◌, ◌<◌, ◌≡◌, List, [], ◌∷◌, ◌++◌, arith, refl, inr, take, drop, length,
  if◌then◌else◌, ltb, get_or,
}
use dpa.Prelude.Word.{u64, ltb_i32}
use dpa.Ring.{DpaRing, no_slot}
use dpa.Window.{window}
use dpa.Queue.{DupQueue, write_avali, used, widx_offset}
use dpa.Forward.{DupSlot, Copy, put, open_copy}
use dpa.Forward.Put.{IsOpen, pending, filled}
use dpa.Forward.Room.{drops, count_drop}
use dpa.Forward.Refine.{put-refines}
use dpa.Forward.Batch.{Bufs, Thread, proc_intel, proc_bnx2, is_bad, packet_of, bytes}
use dpa.Forward.Batch.Copies.{put_all, put_all-delivers, sum_len, room}
use dpa.Forward.Batch.Verdict.{verdict_intel, goods, judge}
use dpa.Forward.Batch.Accounts.{
  IsFilled, after, batch_size, proc_intel-after, proc_bnx2-after, slot_verdict,
}

abbrev four_slots : DupQueue
four_slots = record {
  queue_id = 0;
  num_slots = 4;
  slot_size = 2048;
  widx = 3;
  ridx = 2;
  mask = 3;
  drop_packets = 0;
  drop_bytes = 0;
  slot_offs = 128;
}

abbrev small_packet : DupSlot
small_packet = record { len = 2; info = 0; packet = 7 ∷ 8 ∷ [] }

abbrev copy : Copy
copy = open_copy four_slots (λ i. small_packet)

copy-IsOpen : IsOpen copy
unfolding open_copy widx_offset write_avali used ltb_i32
copy-IsOpen = record {
  counted = record {
    ready = record {
      log = 2;
      size = refl;
      mask_eq = refl;
      small = omega arith;
      widx_in = omega arith;
      ridx_in = omega arith;
    };
    widx_in = omega arith;
    room = omega arith;
    behind = omega arith;
  };
  fresh = inr (omega arith);
}

abbrev three_packets : List DupSlot
three_packets = small_packet ∷ small_packet ∷ small_packet ∷ []

put-refines_example :
    IsOpen (put copy small_packet)
    × (pending (put copy small_packet) ≡ (
        if ltb (filled copy + 1) copy.queue.num_slots
        then pending copy ++ small_packet ∷ []
        else pending copy))
    × (drops (put copy small_packet) ≡ (
        if ltb (filled copy + 1) copy.queue.num_slots
        then drops copy
        else count_drop (drops copy) 2))
put-refines_example = put-refines copy small_packet copy-IsOpen

put_all-delivers_example :
    IsOpen (put_all copy three_packets)
    × (pending (put_all copy three_packets) ≡ pending copy ++ take (room copy) three_packets)
    × (u64 (put_all copy three_packets).queue.drop_packets
        ≡ u64 (copy.queue.drop_packets + length (drop (room copy) three_packets)))
    × (u64 (put_all copy three_packets).queue.drop_bytes
        ≡ u64 (copy.queue.drop_bytes + sum_len (drop (room copy) three_packets)))
put_all-delivers_example = put_all-delivers copy three_packets copy-IsOpen

-- A ring of three slots: a packet, an empty slot, and a packet longer than a buffer.
abbrev three_slots : DpaRing
three_slots = record {
  buf_ofs = 0;
  num_slots = 3;
  avail = 3;
  cur = 1;
  reserved = 0;
  hw_ofs = 0;
  buf_size = 2048;
  slot =
      record { buf_idx = 2; len = 2; info = 0 }
      ∷ no_slot
      ∷ record { buf_idx = 4; len = 4000; info = 0 }
      ∷ [];
}

abbrev thread : Thread
thread = record {
  ring = three_slots;
  totals = record { packets = 0; total_bytes = 0; err_packets = 0; total_err_bytes = 0 };
  copies = copy ∷ [];
}

lens-small : (i : ℕ) → (get_or three_slots.slot i no_slot).len < 2 ^ 16
lens-small zero = omega arith
lens-small (suc zero) = omega arith
lens-small (suc (suc zero)) = omega arith
lens-small (suc (suc (suc i))) = omega arith

thread-IsFilled : IsFilled three_slots
thread-IsFilled = record {
  slots_small = omega arith;
  cur_in = omega arith;
  some_avail = λ e. absurd (omega (arith, e));
  avail_small = omega arith;
  lens_small = lens-small;
}

abbrev bufs : Bufs
bufs i offs = i + offs

proc_intel-after_example :
    proc_intel bufs true thread
    ≡ after thread (window (verdict_intel three_slots bufs) 3 1 (batch_size three_slots))
proc_intel-after_example = proc_intel-after bufs thread thread-IsFilled

-- Slot 254 stands for descriptor 255, the last of a page.
abbrev paged : Thread
paged = record thread { ring = record three_slots { num_slots = 512; cur = 254; hw_ofs = 511 } }

paged-IsFilled : IsFilled paged.ring
paged-IsFilled = record {
  slots_small = omega arith;
  cur_in = omega arith;
  some_avail = λ e. absurd (omega (arith, e));
  avail_small = omega arith;
  lens_small = lens-small;
}

proc_bnx2-after_example :
    proc_bnx2 bufs true paged
    ≡ after paged (window (slot_verdict paged.ring bufs) 512 254 (batch_size paged.ring))
proc_bnx2-after_example = proc_bnx2-after bufs paged paged-IsFilled (omega arith) (omega arith)

-- The slots are taken from index 1 on, round the end; only the packet goes on.
one_good :
    goods (window (verdict_intel three_slots bufs) 3 1 3)
    ≡ record { len = 2; info = 0; packet = 2 ∷ 3 ∷ [] } ∷ []
unfolding window verdict_intel judge is_bad packet_of bytes
one_good = refl
