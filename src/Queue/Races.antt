-- ===== src/Queue/Races.antt =====
-- What the counts of duplicator/queue.c return when the other side moves an index between two of
-- the reads that one call makes of it.
use dpa.Prelude.{ℕ, ◌-◌, ◌^◌, ◌<◌, ◌≡◌, arith}
use dpa.Prelude.Mod.{mod_cases}
use dpa.Prelude.Word.{add32, sub32, ltb_i32_small}
use dpa.Queue.{DupQueue, IsReady, read_avali_reads, write_avali_reads}
use dpa.Queue.Counts.{bit_and-mask}

-- On a ready queue whose write index is above its read index, if the consumer releases everything
-- between the first read of `ridx` and the next, dup_queue_write_avali returns -1.
pub write_avali_reads_drained :
    {q : DupQueue}
    → IsReady q
    → q.ridx < q.widx
    → (r3 : ℕ) → write_avali_reads q q.ridx q.widx r3 ≡ 2 ^ 32 - 1
unfolding write_avali_reads
write_avali_reads_drained {q} r h r3 = ground (
  arith,
  ltb_i32_small q.ridx q.widx,
  bit_and-mask r (add32 (sub32 q.widx q.widx) q.num_slots),
  mod_cases (add32 (sub32 q.widx q.widx) q.num_slots) q.num_slots,
)

-- On a ready queue whose write index is above its read index, if the producer wraps the write
-- index to `w` below the read index between the two reads of `widx`, dup_queue_read_avali returns
-- the negative number w - ridx.
pub read_avali_reads_wrapped :
    {q : DupQueue} (w : ℕ)
    → IsReady q
    → q.ridx < q.widx
    → w < q.ridx
    → read_avali_reads q q.widx w ≡ 2 ^ 32 - (q.ridx - w)
unfolding read_avali_reads
read_avali_reads_wrapped {q} w r h k = ground (arith, ltb_i32_small q.ridx q.widx)
