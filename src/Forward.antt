-- ===== src/Forward.antt =====
-- duplicator/duplicator.c, dup_proc_intel and dup_proc_bnx2: one queue's thread takes packets from
-- a kernel ring and copies each of them to every output queue.
-- A copy's slots are a function of the slot's index, since DUP_SLOT places slot i at
-- slot_begin + i * slot_size and a packet that passes the length test fits one slot.
pub mod Put
pub mod Room
pub mod Refine
pub mod Batch
mod Tests
use dpa.Prelude.{
  ℕ, zero, suc, ◌+◌, ◌-◌, ◌%◌, ◌^◌, ◌≤◌, ◌<◌, ◌≡◌, ◌⊎◌, List, [], ◌∷◌, map, Bool, true, false,
  if◌then◌else◌, ◌==◌, arith,
}
use dpa.Prelude.Word.{u64}
use dpa.Window.{update}
use dpa.Queue.{DupQueue, write_avali, write_adv, widx_offset, slot_idx_next}

-- dup_slot_t: what one slot of an output queue holds.
pub record DupSlot : Type 0 where
  pub len : ℕ
  pub info : ℕ
  pub packet : List ℕ

-- One output queue with its slots, and the thread's locals `widx[i]` and `wavali[i]`.
pub record Copy : Type 0 where
  pub queue : DupQueue
  pub slots : ℕ → DupSlot
  pub widx : ℕ
  pub wavali : ℕ

-- The set-up before the loop.
unfoldable pub open_copy : DupQueue → (ℕ → DupSlot) → Copy
open_copy q slots = record { queue = q; slots = slots; widx = q.widx; wavali = write_avali q }

-- `if (wavali[i] == 0) wavali[i] = dup_queue_write_avali(...)`
unfoldable pub refresh : Copy → Copy
refresh c = record c { wavali = if c.wavali == 0 then write_avali c.queue else c.wavali }

-- No room after the second look: the packet is counted as dropped.
unfoldable pub drop : Copy → DupSlot → Copy
drop c x = record c {
  queue = record (c.queue) {
    drop_packets = u64 (c.queue.drop_packets + 1);
    drop_bytes = u64 (c.queue.drop_bytes + x.len);
  };
}

-- Fill the slot at the local index and move that on.
unfoldable pub store : Copy → DupSlot → Copy
store c x = record c { slots = update c.slots c.widx x; widx = slot_idx_next c.queue c.widx }

-- dup_queue_write_adv, then a new look at the room.
unfoldable pub publish : Copy → ℕ → Copy
publish c count = let q = write_adv c.queue count in record c { queue = q; wavali = write_avali q }

-- `if (DUP_QUEUE_WIDX_OFFSET(...) == wavali[i])` after a store.
unfoldable pub publish_full : Copy → Copy
publish_full c = if widx_offset c.queue c.widx == c.wavali then publish c c.wavali else c

-- The body of the loop over the copies, for one packet.
unfoldable pub put : Copy → DupSlot → Copy
put c x = let c' = refresh c in if c'.wavali == 0 then drop c' x else publish_full (store c' x)

-- The loop over the copies after a batch.
unfoldable pub flush : Copy → Copy
flush c =
    let n = widx_offset c.queue c.widx in
    let c' = if n == 0 then c else record c { queue = write_adv c.queue n } in
    record c' { wavali = write_avali c'.queue }
