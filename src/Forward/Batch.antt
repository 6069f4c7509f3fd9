-- ===== src/Forward/Batch.antt =====
-- duplicator/duplicator.c: the rounds of dup_proc_intel and dup_proc_bnx2. A round takes up to
-- DUP_PKT_PER_PROCESS slots of the kernel's ring, forwards the packets to every copy, publishes
-- the copies, and hands the slots back. What poll returns is an argument.
pub mod Verdict
pub mod Accounts
pub mod Copies
use dpa.Prelude.{
  ℕ, zero, suc, ◌+◌, ◌-◌, ◌*◌, ◌%◌, ◌^◌, ◌≤◌, ◌<◌, ◌≡◌, List, [], ◌∷◌, map, Bool, true, false, not,
  ◌||◌, ◌&&◌, bit_and, if◌then◌else◌, ◌==◌, ltb, leb, arith, get_or, min,
}
use dpa.Prelude.Word.{u16, u64, add32, sub32, ltb_i32}
use dpa.Ring.{DpaSlot, DpaRing, no_slot, ring_next}
use dpa.Forward.{DupSlot, Copy, put, flush}

abbrev pub pkt_per_process : ℕ
pkt_per_process = 2048

abbrev pub bnx2_rx_offset : ℕ
bnx2_rx_offset = 18

abbrev pub bcm_rx_desc_cnt : ℕ
bcm_rx_desc_cnt = 256

-- offsetof(dup_slot_t, packet), with 64-bit words
abbrev pub slot_header : ℕ
slot_header = 8

-- The contents of the packet buffers, by index and offset: DPA_BUF.
abbrev pub Bufs : Type 0
Bufs = ℕ → ℕ → ℕ

-- memcpy of `len` bytes from `offs` on.
unfoldable pub bytes : (ℕ → ℕ) → ℕ → ℕ → List ℕ
bytes mem offs zero = []
bytes mem offs (suc len) = mem offs ∷ bytes mem (offs + 1) len

-- The locals of a round: `cur`, `err_pkt`, `err_bytes`, `bytes` and `ipass`, and the copies.
pub record Batch : Type 0 where
  pub cur : ℕ
  pub err_pkts : ℕ
  pub err_bytes : ℕ
  pub good_bytes : ℕ
  pub ipass : ℕ
  pub copies : List Copy

-- The counters of dup_targs_t.
pub record Totals : Type 0 where
  pub packets : ℕ
  pub total_bytes : ℕ
  pub err_packets : ℕ
  pub total_err_bytes : ℕ

-- What a thread works on.
pub record Thread : Type 0 where
  pub ring : DpaRing
  pub totals : Totals
  pub copies : List Copy

-- `(in_slot->len > max_pkt_size) || (in_slot->len == 0)`
unfoldable pub is_bad : ℕ → DpaSlot → Bool
is_bad max_size s = ltb max_size s.len || s.len == 0

-- The packet of a slot as it is copied out.
unfoldable pub packet_of : Bufs → ℕ → DpaSlot → DupSlot
packet_of bufs offs s = record {
  len = s.len;
  info = s.info;
  packet = bytes (bufs s.buf_idx) offs s.len;
}

module _ (ring : DpaRing) (bufs : Bufs) (max_size offs : ℕ) where
  -- One slot: a bad length is counted, any other packet goes to every copy.
  unfoldable pub take_slot : Batch → Batch
  take_slot b =
      let s = get_or ring.slot b.cur no_slot in
      if is_bad max_size s
      then record b {
        cur = ring_next ring b.cur;
        err_pkts = add32 b.err_pkts 1;
        err_bytes = add32 b.err_bytes s.len;
      }
      else record b {
        cur = ring_next ring b.cur;
        good_bytes = u64 (b.good_bytes + s.len);
        copies = map (λ c. put c (packet_of bufs offs s)) b.copies;
      }

-- dup_proc_bnx2: the slot's index on the card, and whether that is the last of a page of
-- descriptors, which holds no packet.
unfoldable pub hw_cur : DpaRing → ℕ → ℕ
hw_cur ring cur =
    let h = sub32 cur ring.hw_ofs in
    if ltb_i32 h 0
    then add32 h ring.num_slots
    else if ltb_i32 h ring.num_slots
    then h
    else sub32 h ring.num_slots

unfoldable pub is_page_end : DpaRing → ℕ → Bool
is_page_end ring cur = bit_and (hw_cur ring cur) (bcm_rx_desc_cnt - 1) == bcm_rx_desc_cnt - 1

-- The body of the loop over the slots, for either driver.
unfoldable pub step_intel : DpaRing → Bufs → Batch → Batch
step_intel ring bufs b = take_slot ring bufs (u16 (ring.buf_size + 2 ^ 16 - slot_header)) 0 b

unfoldable pub step_bnx2 : DpaRing → Bufs → Batch → Batch
step_bnx2 ring bufs b =
    if is_page_end ring b.cur
    then record b { cur = ring_next ring b.cur; ipass = add32 b.ipass 1 }
    else take_slot ring bufs (u16 (ring.buf_size + 2 ^ 16 - bnx2_rx_offset)) bnx2_rx_offset b

-- `for (rx = 0; rx < num_proc; rx++)`
unfoldable pub steps : (Batch → Batch) → ℕ → Batch → Batch
steps step zero b = b
steps step (suc n) b = steps step n (step b)

abbrev pub start_batch : Thread → Batch
start_batch t = record {
  cur = t.ring.cur;
  err_pkts = 0;
  err_bytes = 0;
  good_bytes = 0;
  ipass = 0;
  copies = t.copies;
}

-- The int `x` added to a uint64_t: sign extension.
unfoldable pub add_int : ℕ → ℕ → ℕ
add_int total x = if ltb_i32 x 0 then u64 (total + x + (2 ^ 64 - 2 ^ 32)) else u64 (total + x)

-- What follows the loop over the slots, `rx` of which were taken.
unfoldable pub end_batch : Thread → ℕ → Batch → Thread
end_batch t rx b = record {
  ring = record (t.ring) { avail = sub32 t.ring.avail rx; cur = b.cur };
  totals = record {
    packets = add_int t.totals.packets (sub32 (sub32 rx b.ipass) b.err_pkts);
    total_bytes = u64 (t.totals.total_bytes + b.good_bytes);
    err_packets = add_int t.totals.err_packets b.err_pkts;
    total_err_bytes = add_int t.totals.total_err_bytes b.err_bytes;
  };
  copies = map flush b.copies;
}

-- One turn of `while (1)`: nothing happens if poll brings nothing or the ring is empty.
unfoldable pub round : (DpaRing → Bufs → Batch → Batch) → Bufs → Bool → Thread → Thread
round step bufs polled t =
    let n = min t.ring.avail pkt_per_process in
    let next = end_batch t n (steps (step t.ring bufs) n (start_batch t)) in
    if polled && not (t.ring.avail == 0) then next else t

unfoldable pub proc_intel : Bufs → Bool → Thread → Thread
proc_intel = round step_intel

unfoldable pub proc_bnx2 : Bufs → Bool → Thread → Thread
proc_bnx2 = round step_bnx2
