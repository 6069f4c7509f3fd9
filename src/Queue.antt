-- ===== src/Queue.antt =====
-- duplicator/queue.c, duplicator/queue.h and their copies lib/dup_queue.c, lib/dup_queue.h: the
-- ring of packet slots that one producer and one consumer share.
-- An int32_t is its two's complement pattern; `widx` and `ridx` are volatile.
pub mod Counts
pub mod Offset
pub mod Races
mod Tests
use dpa.Prelude.{ℕ, ◌+◌, ◌-◌, ◌%◌, ◌^◌, ◌≤◌, ◌<◌, ◌≡◌, bit_and, arith, if◌then◌else◌}
use dpa.Prelude.Word.{add32, sub32, ltb_i32}

-- dup_queue_t
pub record DupQueue : Type 0 where
  pub queue_id : ℕ
  pub num_slots : ℕ
  pub slot_size : ℕ
  pub widx : ℕ
  pub ridx : ℕ
  pub mask : ℕ
  pub drop_packets : ℕ
  pub drop_bytes : ℕ
  pub slot_offs : ℕ

-- dup_queue_init on the memory `q` at address `addr`. The source sets `drop_packets` twice and
-- `drop_bytes` never.
unfoldable pub init : DupQueue → ℕ → ℕ → ℕ → ℕ → ℕ → DupQueue
init q addr queue_id num_slots slot_size slot = record q {
  queue_id = queue_id;
  num_slots = num_slots;
  slot_size = slot_size;
  widx = 0;
  ridx = 0;
  mask = sub32 num_slots 1;
  drop_packets = 0;
  slot_offs = (slot + 2 ^ 64 - addr) % 2 ^ 64;
}

-- dup_queue_read_avali, with the values that its two reads of `widx` see.
unfoldable pub read_avali_reads : DupQueue → ℕ → ℕ → ℕ
read_avali_reads q w1 w2 =
    if ltb_i32 q.ridx w1
    then sub32 w2 q.ridx
    else bit_and (add32 (sub32 w2 q.ridx) q.num_slots) q.mask

unfoldable pub read_avali : DupQueue → ℕ
unfolding read_avali_reads
read_avali q = read_avali_reads q q.widx q.widx

-- dup_queue_write_avali, with the values that its reads of `ridx` see in turn.
unfoldable pub write_avali_reads : DupQueue → ℕ → ℕ → ℕ → ℕ
write_avali_reads q r1 r2 r3 =
    if ltb_i32 r1 q.widx
    then sub32 (bit_and (add32 (sub32 r2 q.widx) q.num_slots) q.mask) 1
    else if ltb_i32 q.widx r2
    then sub32 (sub32 r3 q.widx) 1
    else sub32 q.num_slots 1

unfoldable pub write_avali : DupQueue → ℕ
unfolding write_avali_reads
write_avali q = write_avali_reads q q.ridx q.ridx q.ridx

-- dup_queue_read_adv
unfoldable pub read_adv : DupQueue → ℕ → DupQueue
read_adv q count = record q { ridx = bit_and (add32 q.ridx count) q.mask }

-- dup_queue_write_adv
unfoldable pub write_adv : DupQueue → ℕ → DupQueue
write_adv q count = record q { widx = bit_and (add32 q.widx count) q.mask }

-- DUP_QUEUE_IDX_RANGE, DUP_QUEUE_WIDX_OFFSET and DUP_SLOT_IDX_NEXT
unfoldable pub idx_range : DupQueue → ℕ → ℕ → ℕ
idx_range q b e = bit_and (sub32 e b) q.mask

unfoldable pub widx_offset : DupQueue → ℕ → ℕ
unfolding idx_range
widx_offset q w = idx_range q q.widx w

unfoldable pub slot_idx_next : DupQueue → ℕ → ℕ
slot_idx_next q i = bit_and (add32 i 1) q.mask

-- What initialisation establishes and every operation keeps: a power of two of slots, and both
-- indices among them.
pub record IsReady (q : DupQueue) : Type 0 where
  pub log : ℕ
  pub size : q.num_slots ≡ 2 ^ log
  pub mask_eq : q.mask ≡ q.num_slots - 1
  pub small : q.num_slots ≤ 2 ^ 30
  pub widx_in : q.widx < q.num_slots
  pub ridx_in : q.ridx < q.num_slots

-- Slots written and not yet released.
unfoldable pub used : DupQueue → ℕ
used q = (q.widx + q.num_slots - q.ridx) % q.num_slots
