-- ===== src/Queue/Counts.antt =====
-- The counts of dup_queue_read_avali and dup_queue_write_avali, and what the two advances do to
-- them, while one side rests.
use dpa.Prelude.{ℕ, ◌+◌, ◌-◌, ◌%◌, ◌^◌, ◌≤◌, ◌<◌, ◌≡◌, bit_and, arith, ap, sym, refl, ◌∙◌}
use dpa.Prelude.Bits.{bit_and-low_mask}
use dpa.Prelude.Mod.{mod_cases}
use native.Mathlib.Nat.{mod-lt, one-le-pow}
use dpa.Prelude.Word.{add32, sub32, ltb_i32_small}
use dpa.Queue.{
  DupQueue, IsReady, used, init, read_avali, write_avali, read_adv, write_adv, slot_idx_next,
}

pub bit_and-mask : {q : DupQueue} → IsReady q → (x : ℕ) → bit_and x q.mask ≡ x % q.num_slots
bit_and-mask {q} r x =
    ap (bit_and x) (r.mask_eq ∙ ap (λ t. t - 1) r.size)
    ∙ bit_and-low_mask r.log x
    ∙ ap (λ t. x % t) (sym r.size)

pub used-lt : {q : DupQueue} → IsReady q → used q < q.num_slots
unfolding used
used-lt r = omega arith

pub read_avali-eq-used : {q : DupQueue} → IsReady q → read_avali q ≡ used q
unfolding read_avali used
read_avali-eq-used {q} r = ground (
  arith,
  ltb_i32_small q.ridx q.widx,
  bit_and-mask r (add32 (sub32 q.widx q.ridx) q.num_slots),
  mod_cases (q.widx + q.num_slots - q.ridx) q.num_slots,
)

pub write_avali-eq : {q : DupQueue} → IsReady q → write_avali q ≡ q.num_slots - 1 - used q
unfolding write_avali used
write_avali-eq {q} r = ground (
  arith,
  ltb_i32_small q.ridx q.widx,
  ltb_i32_small q.widx q.ridx,
  bit_and-mask r (add32 (sub32 q.ridx q.widx) q.num_slots),
  mod_cases (add32 (sub32 q.ridx q.widx) q.num_slots) q.num_slots,
  mod_cases (q.widx + q.num_slots - q.ridx) q.num_slots,
)

pub slot_idx_next-eq :
    {q : DupQueue}
    → IsReady q
    → (i : ℕ) → i < q.num_slots
    → slot_idx_next q i ≡ (i + 1) % q.num_slots
unfolding slot_idx_next
slot_idx_next-eq {q} r i h = ground (arith, bit_and-mask r (add32 i 1))

pub write_adv-eq :
    {q : DupQueue}
    → IsReady q
    → (count : ℕ) → count < q.num_slots
    → write_adv q count ≡ record q { widx = (q.widx + count) % q.num_slots }
unfolding write_adv
write_adv-eq {q} r count h = ground (arith, bit_and-mask r (add32 q.widx count))

pub read_adv-eq :
    {q : DupQueue}
    → IsReady q
    → (count : ℕ) → count < q.num_slots
    → read_adv q count ≡ record q { ridx = (q.ridx + count) % q.num_slots }
unfolding read_adv
read_adv-eq {q} r count h = ground (arith, bit_and-mask r (add32 q.ridx count))

pub write_adv-IsReady :
    {q : DupQueue} → IsReady q → (count : ℕ) → count < q.num_slots → IsReady (write_adv q count)
write_adv-IsReady {q} r count h = rw (write_adv-eq r count h) moved
  where
    moved : IsReady (record q { widx = (q.widx + count) % q.num_slots })
    moved = record {
      log = r.log;
      size = r.size;
      mask_eq = r.mask_eq;
      small = r.small;
      widx_in = mod-lt _ (omega arith);
      ridx_in = r.ridx_in;
    }

pub read_adv-IsReady :
    {q : DupQueue} → IsReady q → (count : ℕ) → count < q.num_slots → IsReady (read_adv q count)
read_adv-IsReady {q} r count h = rw (read_adv-eq r count h) moved
  where
    moved : IsReady (record q { ridx = (q.ridx + count) % q.num_slots })
    moved = record {
      log = r.log;
      size = r.size;
      mask_eq = r.mask_eq;
      small = r.small;
      widx_in = r.widx_in;
      ridx_in = mod-lt _ (omega arith);
    }

pub used-write_adv :
    {q : DupQueue}
    → IsReady q
    → (count : ℕ) → used q + count < q.num_slots
    → used (write_adv q count) ≡ used q + count
unfolding used
used-write_adv {q} r count h = rw (write_adv-eq r count (omega arith)) (
    ground (
      arith,
      mod_cases (q.widx + q.num_slots - q.ridx) q.num_slots,
      mod_cases (q.widx + count) q.num_slots,
      mod_cases ((q.widx + count) % q.num_slots + q.num_slots - q.ridx) q.num_slots,
    ))

pub used-read_adv :
    {q : DupQueue}
    → IsReady q
    → (count : ℕ) → count ≤ used q
    → used (read_adv q count) + count ≡ used q
unfolding used
used-read_adv {q} r count h = rw (read_adv-eq r count (omega (arith, used-lt r))) (
    ground (
      arith,
      mod_cases (q.widx + q.num_slots - q.ridx) q.num_slots,
      mod_cases (q.ridx + count) q.num_slots,
      mod_cases (q.widx + q.num_slots - (q.ridx + count) % q.num_slots) q.num_slots,
    ))

pub num_slots-write_adv : (q : DupQueue) (c : ℕ) → (write_adv q c).num_slots ≡ q.num_slots
unfolding write_adv
num_slots-write_adv q c = refl

pub num_slots-read_adv : (q : DupQueue) (c : ℕ) → (read_adv q c).num_slots ≡ q.num_slots
unfolding read_adv
num_slots-read_adv q c = refl

-- Publishing at most `write_avali` slots keeps the queue ready, makes that many more readable and
-- leaves that many fewer writable.
write_adv-counts :
    {q : DupQueue}
    → IsReady q
    → (count : ℕ) → count ≤ write_avali q
    → IsReady (write_adv q count)
      × (read_avali (write_adv q count) ≡ read_avali q + count)
      × (write_avali (write_adv q count) + count ≡ write_avali q)
write_adv-counts {q} r count h =
    let lt = used-lt r in
    let w = write_avali-eq r in
    let ready = write_adv-IsReady r count (omega arith) in
    let grown = used-write_adv r count (omega arith) in
    let same = num_slots-write_adv q count in
    (
      ready,
      omega (arith, read_avali-eq-used ready, read_avali-eq-used r),
      omega (arith, write_avali-eq ready),
    )

-- Releasing at most `read_avali` slots keeps the queue ready, makes that many fewer readable and
-- that many more writable.
pub read_adv-counts :
    {q : DupQueue}
    → IsReady q
    → (count : ℕ) → count ≤ read_avali q
    → IsReady (read_adv q count)
      × (read_avali (read_adv q count) + count ≡ read_avali q)
      × (write_avali (read_adv q count) ≡ write_avali q + count)
read_adv-counts {q} r count h =
    let lt = used-lt r in
    let a = read_avali-eq-used r in
    let ready = read_adv-IsReady r count (omega arith) in
    let shrunk = used-read_adv r count (omega arith) in
    let same = num_slots-read_adv q count in
    (
      ready,
      omega (arith, read_avali-eq-used ready),
      omega (arith, write_avali-eq ready, write_avali-eq r),
    )

-- On a ready queue the readable and the writable slots are all but one. Publishing w writable slots and
-- releasing r readable ones keep the queue ready, and move just so many slots from the one count to the
-- other and back.
pub adv-counts :
    {q : DupQueue}
    → IsReady q
    → (w r : ℕ) → w ≤ write_avali q
    → r ≤ read_avali q
    → (read_avali q + write_avali q ≡ q.num_slots - 1)
      × (IsReady (write_adv q w)
          × (read_avali (write_adv q w) ≡ read_avali q + w)
          × (write_avali (write_adv q w) + w ≡ write_avali q))
      × (IsReady (read_adv q r)
          × (read_avali (read_adv q r) + r ≡ read_avali q)
          × (write_avali (read_adv q r) ≡ write_avali q + r))
adv-counts ready w r can_write can_read = (
  omega (arith, read_avali-eq-used ready, write_avali-eq ready, used-lt ready),
  write_adv-counts ready w can_write,
  read_adv-counts ready r can_read,
)

-- dup_queue_init on 2 ^ k slots, at most 2 ^ 30, whatever the memory held, gives a ready queue
-- with nothing to read and all slots but one to write; the packet drop count is 0, and the byte
-- drop count is what the memory held.
pub init-IsReady :
    (old : DupQueue) (addr id k slot_size slot : ℕ)
    → 2 ^ k ≤ 2 ^ 30
    → let q = init old addr id (2 ^ k) slot_size slot in
      IsReady q
      × (read_avali q ≡ 0)
      × (write_avali q ≡ 2 ^ k - 1)
      × (q.drop_packets ≡ 0)
      × (q.drop_bytes ≡ old.drop_bytes)
init-IsReady old addr id k slot_size slot h = (
  ready,
  read_avali-eq-used ready ∙ idle,
  omega (arith, write_avali-eq ready, idle, size),
  unfold init in refl,
  unfold init in refl,
)
  where
    size : (init old addr id (2 ^ k) slot_size slot).num_slots ≡ 2 ^ k
    size = unfold init in refl

    positive : 1 ≤ 2 ^ k
    positive = one-le-pow k 2 (omega arith)

    ready : IsReady (init old addr id (2 ^ k) slot_size slot)
    ready =
        unfold init in
        record {
          log = k;
          size = refl;
          mask_eq = omega (arith, positive);
          small = h;
          widx_in = omega (arith, positive);
          ridx_in = omega (arith, positive);
        }

    idle : used (init old addr id (2 ^ k) slot_size slot) ≡ 0
    idle = unfold init used in ground (arith, mod_cases (0 + 2 ^ k - 0) (2 ^ k), positive)
