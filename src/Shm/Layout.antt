-- ===== src/Shm/Layout.antt =====
-- The layout of the file that dup_shm_init (duplicator/shm.c) makes.
use dpa.Prelude.{
  ℕ, zero, suc, ◌+◌, ◌-◌, ◌*◌, ◌^◌, ◌≤◌, ◌<◌, ◌≡◌, ◌≢◌, true, some, ltb, refl, ap, ap₂, sym, ◌∙◌,
  arith, get_or, length, subst, Bool-cases, inl, inr, ltb_false→le, lt→ltb, ne→==_false,
}
use native.Mathlib.Nat.{
  zero-mul, zero-add, mod-eq_of_lt, suc-mul, mul_assoc, one-le-pow, mul-le-mul_right,
  le-mul_of_pos_right, pow-le-pow_right,
}
use dpa.Prelude.Align.{IsBelow, align_down}
use dpa.Prelude.Word.{u32, u64, ltb_i32}
use dpa.Netdev.{dpa_magic}
use dpa.Queue
use dpa.Queue.{DupQueue, IsReady}
use dpa.Queue.Counts.{init-IsReady}
use dpa.Shm.{
  head_size, queue_size, DupShm, ShmCalls, made, round_up, hdr_size, as_long, data_size, page_align,
  zero_queue, init_queues, shm_mapped, shm_sized, shm_init,
}

-- The queue that the loop sets up at i, with its buffer at `buf`
abbrev queue_at : ℕ → ℕ → ℕ → ℕ → ℕ → DupQueue
queue_at num_slots slot_size addr i buf =
    Queue.init zero_queue (addr + head_size + i * queue_size) i num_slots slot_size buf

-- A number that an int holds
as_long_small : (n : ℕ) → n < 2 ^ 31 → as_long n ≡ n
unfolding as_long ltb_i32
as_long_small n small = ground (arith, small)

as_long-u32 : (n : ℕ) → n < 2 ^ 31 → as_long (u32 n) ≡ n
as_long-u32 n small = ap as_long (mod-eq_of_lt (omega (arith, small))) ∙ as_long_small n small

init_queues-get_or :
    (num_slots slot_size addr n i buf j : ℕ)
    → num_slots * slot_size < 2 ^ 31
    → j < n
    → get_or (init_queues num_slots slot_size addr n i buf) j zero_queue
      ≡ queue_at num_slots slot_size addr (i + j) (buf + j * (num_slots * slot_size))
unfolding init_queues
init_queues-get_or num_slots slot_size addr zero i buf j small lt = elim lt [ ]
init_queues-get_or num_slots slot_size addr (suc n) i buf zero small lt =
    let first : i ≡ i + 0 = omega arith in
    let begin : buf ≡ buf + 0 * (num_slots * slot_size) =
      omega (arith, zero-mul (num_slots * slot_size)) in
    ap₂ (queue_at num_slots slot_size addr) first begin
init_queues-get_or num_slots slot_size addr (suc n) i buf (suc j) small lt =
    let size = num_slots * slot_size in
    let one = as_long-u32 size small in
    let next : i + 1 + j ≡ i + suc j = omega arith in
    let begin : buf + as_long (u32 size) + j * size ≡ buf + suc j * size =
      omega (arith, one, suc-mul j size) in
    init_queues-get_or num_slots slot_size addr n (i + 1) (buf + as_long (u32 size)) j small
      (omega (arith, lt))
    ∙ ap₂ (queue_at num_slots slot_size addr) next begin

length-init_queues :
    (num_slots slot_size addr n i buf : ℕ)
    → length (init_queues num_slots slot_size addr n i buf) ≡ n
unfolding init_queues
length-init_queues num_slots slot_size addr zero i buf = refl
length-init_queues num_slots slot_size addr (suc n) i buf = ap suc (
    length-init_queues num_slots slot_size addr n (i + 1)
      (buf + as_long (u32 (num_slots * slot_size))))

-- Where the first buffer begins
hdr_size-IsBelow :
    (n k : ℕ)
    → n < 2 ^ 16
    → 2 ^ k ≤ 2 ^ 30
    → k ≤ 64
    → IsBelow k (head_size + n * queue_size + (2 ^ k - 1)) (hdr_size n (2 ^ k))
unfolding hdr_size
hdr_size-IsBelow n k few small fits = align_down k _ fits (omega (arith, few, small))

-- A head and n queues at the start, each queue's buffer of `size` bytes behind them, aligned to
-- `slot_size`, one after the other, all within the file; and the queues are empty and in order.
pub record IsLaidOut (addr n slot_size size : ℕ) (s : DupShm) : Type 0 where
  pub first : ℕ
  pub behind : head_size + n * queue_size ≤ first
  pub times : ℕ
  pub aligned : first ≡ times * slot_size
  pub inside : first + n * size ≤ s.mem_size
  pub whole : s.mem_size ≡ s.file_size
  pub counted : (s.num_queues ≡ n) × (length s.queues ≡ n)
  pub buffer :
      (i : ℕ)
      → i < n
      → let q = get_or s.queues i zero_queue in
        IsReady q
        × (q.queue_id ≡ i)
        × (Queue.read_avali q ≡ 0)
        × (addr + head_size + i * queue_size + q.slot_offs ≡ addr + first + i * size)

page_align_bounds :
    (p n : ℕ)
    → p ≤ 20
    → n < 2 ^ 40
    → (n ≤ page_align (2 ^ p) n) × (page_align (2 ^ p) n ≤ n + 2 ^ p)
unfolding page_align
page_align_bounds p n few small =
    let page : 2 ^ p ≤ 2 ^ 20 = pow-le-pow_right {n = 2} (omega arith) few in
    let b = align_down p (n + (2 ^ p - 1)) (omega (arith, few)) (omega (arith, page, small)) in
    let positive = one-le-pow p 2 (omega arith) in
    elim (Bool-cases (ltb (2 ^ p) n)) [
      | inl e ↦
          rw (e, lt→ltb n (2 ^ 63) (omega (arith, small))) (omega (arith, b.low, b.high, positive))
      | inr e ↦ rw e (omega (arith, ltb_false→le _ _ e))
    ]

-- 1 to 2 ^ 16 - 1 queues, sizes that are powers of two, and buffers of at most 1 GiB in all
pub record Fits (n k l p : ℕ) : Type 0 where
  pub some_queues : 0 < n
  pub few : n < 2 ^ 16
  pub slot_log : k ≤ 30
  pub num_log : l ≤ 30
  pub page_log : p ≤ 20
  pub volume : n * 2 ^ l * 2 ^ k ≤ 2 ^ 30

module _ (n k l p : ℕ) (h : Fits n k l p) where
  abbrev size : ℕ
  size = 2 ^ l * 2 ^ k

  slots-le : 2 ^ k ≤ 2 ^ 30
  slots-le = pow-le-pow_right {n = 2} (omega arith) h.slot_log

  volume_eq : n * 2 ^ l * 2 ^ k ≡ n * size
  volume_eq = mul_assoc n (2 ^ l) (2 ^ k)

  size-le : size ≤ 2 ^ 30
  size-le = omega (
    arith,
    h.volume,
    volume_eq,
    mul-le-mul_right {m = 1} {n = n} size (omega (arith, h.some_queues)),
  )

  num-le : 2 ^ l ≤ 2 ^ 30
  num-le = pow-le-pow_right {n = 2} (omega arith) h.num_log

  -- A queue that is ready and empty, with its buffer where it belongs
  abbrev QueueAt : ℕ → ℕ → DupQueue → Type 0
  QueueAt addr i q =
      IsReady q
      × (q.queue_id ≡ i)
      × (Queue.read_avali q ≡ 0)
      × (addr + head_size + i * queue_size + q.slot_offs ≡ addr + hdr_size n (2 ^ k) + i * size)

  data_size-eq : data_size n (2 ^ l) (2 ^ k) ≡ n * size
  unfolding data_size
  data_size-eq =
      let part = le-mul_of_pos_right (n * 2 ^ l) (one-le-pow k 2 (omega arith)) in
      let slots : u32 (n * 2 ^ l) ≡ n * 2 ^ l = mod-eq_of_lt (omega (arith, h.volume, part)) in
      ap (λ t. as_long (u32 (t * 2 ^ k))) slots
      ∙ as_long-u32 (n * 2 ^ l * 2 ^ k) (omega (arith, h.volume))
      ∙ volume_eq

  abbrev total : ℕ
  total = hdr_size n (2 ^ k) + n * size

  hdr_bounds : (head_size + n * queue_size ≤ hdr_size n (2 ^ k)) × (hdr_size n (2 ^ k) < 2 ^ 31)
  hdr_bounds =
      let b = hdr_size-IsBelow n k h.few slots-le (omega (arith, h.slot_log)) in
      omega (arith, b.low, b.high, slots-le, h.few)

  total-lt : total < 2 ^ 32 - 2 ^ 20
  total-lt =
      let b = hdr_size-IsBelow n k h.few slots-le (omega (arith, h.slot_log)) in
      omega (arith, b.low, slots-le, h.few, h.volume, volume_eq)

  whole_size : u64 total ≡ total
  whole_size = mod-eq_of_lt (omega (arith, total-lt))

  -- The file that the duplicator makes at an address
  abbrev file : ℕ → ℕ → ℕ → DupShm
  file dev_cap mem_size addr = record {
    magic = dpa_magic;
    mem_size = u32 mem_size;
    num_queues = n;
    one_queue = queue_size;
    dev_cap = dev_cap;
    queues = init_queues (2 ^ l) (2 ^ k) addr n 0 (addr + hdr_size n (2 ^ k));
    file_size = mem_size;
  }

  queue-facts :
      (addr i : ℕ)
      → addr + 2 ^ 32 ≤ 2 ^ 64
      → i < n
      → let q = queue_at (2 ^ l) (2 ^ k) addr i (addr + hdr_size n (2 ^ k) + i * size) in
        IsReady q
        × (q.queue_id ≡ i)
        × (Queue.read_avali q ≡ 0)
        × (addr + head_size + i * queue_size + q.slot_offs ≡ addr + hdr_size n (2 ^ k) + i * size)
  queue-facts addr i space inside =
      let buf = addr + hdr_size n (2 ^ k) + i * size in
      let at = addr + head_size + i * queue_size in
      let made_ready = init-IsReady zero_queue at i l (2 ^ k) buf num-le in
      let before : i * size ≤ n * size = mul-le-mul_right size (omega (arith, inside)) in
      (
        made_ready.0,
        unfold Queue.init in refl,
        made_ready.1,
        unfold Queue.init in omega (arith, before, hdr_bounds, total-lt, space, inside),
      )

  file-IsLaidOut :
      (dev_cap addr : ℕ)
      → addr + 2 ^ 32 ≤ 2 ^ 64
      → IsLaidOut addr n (2 ^ k) size (file dev_cap (page_align (2 ^ p) total) addr)
  file-IsLaidOut dev_cap addr space =
      let b = hdr_size-IsBelow n k h.few slots-le (omega (arith, h.slot_log)) in
      let page = page_align_bounds p total h.page_log (omega (arith, total-lt)) in
      let small = pow-le-pow_right {n = 2} (omega arith) h.page_log in
      let fits : u32 (page_align (2 ^ p) total) ≡ page_align (2 ^ p) total =
        mod-eq_of_lt (omega (arith, page, total-lt, small)) in
      record {
        first = hdr_size n (2 ^ k);
        behind = hdr_bounds.0;
        times = b.times;
        aligned = b.multiple;
        inside = omega (arith, fits, page);
        whole = fits;
        counted = (refl, length-init_queues (2 ^ l) (2 ^ k) addr n 0 (addr + hdr_size n (2 ^ k)));
        buffer = λ i lt.
            subst (QueueAt addr i)
              (sym (
                init_queues-get_or (2 ^ l) (2 ^ k) addr n 0 (addr + hdr_size n (2 ^ k)) i
                  (omega (arith, size-le)) lt
                ∙ ap₂ (queue_at (2 ^ l) (2 ^ k) addr) (zero-add i) refl))
              (queue-facts addr i space lt);
      }

-- dup_shm_init with a name, sizes that are powers of two or rounded up to such, at most 1 GiB of
-- buffers, and every system call succeeding: it returns the address of the mapping, and the file has
-- there a head, then n queues, each ready, empty and numbered, then their buffers, aligned to a slot,
-- one after the other, all within the size that the head says, which is the file's.
pub shm_init-IsLaidOut :
    (pow2 : ℕ → ℕ) (c : ShmCalls) (n slot_size num_slots dev_cap k l p addr : ℕ)
    → Fits n k l p
    → slot_size ≢ 0
    → num_slots ≢ 0
    → round_up pow2 slot_size ≡ 2 ^ k
    → round_up pow2 num_slots ≡ 2 ^ l
    → c ≡ record {
      page_size = some (2 ^ p);
      opens = true;
      locks = true;
      empties = true;
      extends = true;
      map = some addr;
    }
    → addr + 2 ^ 32 ≤ 2 ^ 64
    → (s : DupShm) × (shm_init pow2 c true n slot_size num_slots dev_cap ≡ made addr s)
      × IsLaidOut addr n (2 ^ k) (2 ^ l * 2 ^ k) s
      × (s.magic ≡ dpa_magic)
      × (s.dev_cap ≡ dev_cap)
unfolding shm_init shm_sized shm_mapped
shm_init-IsLaidOut pow2 c n slot_size num_slots dev_cap k l p addr h some_size some_slots es en ec
      space =
    (
      file n k l p h dev_cap (page_align (2 ^ p) (total n k l p h)) addr,
      rw
          (
            ec,
            ne→==_false n 0 (λ z. omega (arith, z, h.some_queues)),
            ne→==_false slot_size 0 some_size,
            ne→==_false num_slots 0 some_slots,
            es,
            en,
            data_size-eq n k l p h,
            whole_size n k l p h,
          )
          refl,
      file-IsLaidOut n k l p h dev_cap addr space,
      refl,
      refl,
    )
