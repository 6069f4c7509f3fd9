-- ===== src/Queue/Offset.antt =====
-- DUP_QUEUE_WIDX_OFFSET of duplicator/queue.h, and the indices as distances on the ring.
use native.Mathlib.Nat.{mod-lt}
use dpa.Prelude.{ℕ, ◌+◌, ◌-◌, ◌%◌, ◌<◌, ◌≡◌, ap, sym, ◌∙◌, arith}
use dpa.Prelude.Mod.{wrapped_distance, advance-distance, distance-advance}
use dpa.Prelude.Word.{sub32}
use dpa.Queue.{DupQueue, IsReady, used, widx_offset}
use dpa.Queue.Counts.{bit_and-mask}

-- DUP_QUEUE_WIDX_OFFSET is the distance from the write index, in spite of the 32-bit wrap.
pub widx_offset-eq :
    {q : DupQueue}
    → IsReady q
    → (w : ℕ) → w < q.num_slots
    → widx_offset q w ≡ (w + q.num_slots - q.widx) % q.num_slots
unfolding widx_offset
widx_offset-eq {q} r w h =
    bit_and-mask r (sub32 w q.widx)
    ∙ ap (λ t. sub32 w q.widx % t) r.size
    ∙ wrapped_distance r.log w q.widx (omega arith) (omega arith) (omega arith)
    ∙ ap (λ t. (w + t - q.widx) % t) (sym r.size)

pub widx_offset-lt :
    {q : DupQueue} → IsReady q → (w : ℕ) → w < q.num_slots → widx_offset q w < q.num_slots
widx_offset-lt {q} r w h = rw (widx_offset-eq r w h) (mod-lt _ (omega arith))

-- The offset leads from the write index to the index it was taken of.
pub advance-widx_offset :
    {q : DupQueue}
    → IsReady q
    → (w : ℕ) → w < q.num_slots
    → (q.widx + widx_offset q w) % q.num_slots ≡ w
advance-widx_offset {q} r w h =
    rw (widx_offset-eq r w h) (advance-distance q.widx w q.num_slots r.widx_in h)

pub widx_offset_of :
    {q : DupQueue}
    → IsReady q
    → (w k : ℕ) → k < q.num_slots
    → w ≡ (q.widx + k) % q.num_slots
    → widx_offset q w ≡ k
widx_offset_of {q} r w k h e =
    widx_offset-eq r w (rw e (mod-lt _ (omega arith)))
    ∙ ap (λ t. (t + q.num_slots - q.widx) % q.num_slots) e
    ∙ distance-advance q.widx k q.num_slots r.widx_in h

-- The write index is `used` steps past the read index.
pub advance-used : {q : DupQueue} → IsReady q → (q.ridx + used q) % q.num_slots ≡ q.widx
unfolding used
advance-used {q} r = advance-distance q.ridx q.widx q.num_slots r.ridx_in r.widx_in
