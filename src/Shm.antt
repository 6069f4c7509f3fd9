-- ===== src/Shm.antt =====
-- duplicator/shm.c: the file of shared memory that the duplicator sets up for each copy
-- (dup_shm_init), with a head, a queue for each queue of the interface, and the queues' buffers.
-- `pow(2, ceil(log(n)/log(2)))`, the size of a page, and the results of the system calls are
-- arguments; an `int` is its two's complement pattern, and a page's size a number above 0.
pub mod Layout
pub mod Opened
mod Tests
use dpa.Prelude.{
  ℕ, zero, suc, ◌+◌, ◌-◌, ◌*◌, ◌%◌, ◌^◌, ◌≤◌, ◌<◌, List, [], ◌∷◌, Bool, true, false, not, ◌||◌,
  ◌&&◌, Option, none, some, bit_and, if◌then◌else◌, ◌==◌, ltb,
}
use dpa.Prelude.Bits.{complement}
use dpa.Prelude.Word.{u32, u64, add32, sub32, ltb_i32}
use dpa.Netdev.{dpa_magic}
use dpa.Queue
use dpa.Queue.{DupQueue}

-- sizeof(dup_shm_t), sizeof(dup_queue_t)
abbrev pub head_size : ℕ
head_size = 24

abbrev pub queue_size : ℕ
queue_size = 48

-- dup_shm_t: the head, the queues, and the size of the file
pub record DupShm : Type 0 where
  pub magic : ℕ
  pub mem_size : ℕ
  pub num_queues : ℕ
  pub one_queue : ℕ
  pub dev_cap : ℕ
  pub queues : List DupQueue
  pub file_size : ℕ

-- What sysconf, shm_open, flock, the two calls of ftruncate and mmap return.
pub record ShmCalls : Type 0 where
  pub page_size : Option ℕ
  pub opens : Bool
  pub locks : Bool
  pub empties : Bool
  pub extends : Bool
  pub map : Option ℕ

-- NULL with no descriptor left, NULL with the descriptor still open, or the file at an address
pub data ShmInit : Type 0 where
  refused : ShmInit
  leaked : ShmInit
  made : ℕ → DupShm → ShmInit

-- A number rounded up to a power of two, if it is not one
unfoldable pub round_up : (ℕ → ℕ) → ℕ → ℕ
round_up pow2 n = if bit_and (sub32 n 1) n == 0 then n else pow2 n

-- hdr_size: aligned to a slot
unfoldable pub hdr_size : ℕ → ℕ → ℕ
hdr_size num_queues slot_size =
    bit_and (head_size + num_queues * queue_size + (slot_size - 1)) (complement 64 (slot_size - 1))

-- An `int` as a `long`, of 64 bits
unfoldable pub as_long : ℕ → ℕ
as_long n = if ltb_i32 n 0 then n + (2 ^ 64 - 2 ^ 32) else n

-- mem_size: whole pages; the product is one of `int`s
unfoldable pub data_size : ℕ → ℕ → ℕ → ℕ
data_size num_queues num_slots slot_size = as_long (u32 (u32 (num_queues * num_slots) * slot_size))

unfoldable pub page_align : ℕ → ℕ → ℕ
page_align page_size n =
    if ltb page_size n && ltb n (2 ^ 63)
    then bit_and (n + (page_size - 1)) (complement 64 (page_size - 1))
    else page_size

-- What ftruncate leaves of a queue
abbrev pub zero_queue : DupQueue
zero_queue = record {
  queue_id = 0;
  num_slots = 0;
  slot_size = 0;
  widx = 0;
  ridx = 0;
  mask = 0;
  drop_packets = 0;
  drop_bytes = 0;
  slot_offs = 0;
}

-- The loop over the queues, n of them from queue i on, whose buffers begin at `buf_slot`
unfoldable pub init_queues : ℕ → ℕ → ℕ → ℕ → ℕ → ℕ → List DupQueue
init_queues num_slots slot_size addr zero i buf_slot = []
init_queues num_slots slot_size addr (suc n) i buf_slot =
    Queue.init zero_queue (addr + head_size + i * queue_size) i num_slots slot_size buf_slot
    ∷ init_queues num_slots slot_size addr n (i + 1)
        (buf_slot + as_long (u32 (num_slots * slot_size)))

unfoldable pub shm_mapped : ℕ → ℕ → ℕ → ℕ → ℕ → Option ℕ → ShmInit
shm_mapped num_queues slot_size num_slots dev_cap mem_size none = refused
shm_mapped num_queues slot_size num_slots dev_cap mem_size (some addr) = made addr (record {
  magic = dpa_magic;
  mem_size = u32 mem_size;
  num_queues = num_queues;
  one_queue = queue_size;
  dev_cap = dev_cap;
  queues = init_queues num_slots slot_size addr num_queues 0 (addr + hdr_size num_queues slot_size);
  file_size = mem_size;
})

-- From the size of the file on
unfoldable pub shm_sized : ShmCalls → ℕ → ℕ → ℕ → ℕ → Option ℕ → ShmInit
shm_sized c num_queues slot_size num_slots dev_cap none = refused
shm_sized c num_queues slot_size num_slots dev_cap (some page_size) =
    let mem_size =
      page_align page_size
        (u64 (hdr_size num_queues slot_size + data_size num_queues num_slots slot_size)) in
    if not c.opens
    then refused
    else if not c.locks
    then leaked
    else if not c.empties || not c.extends
    then refused
    else shm_mapped num_queues slot_size num_slots dev_cap mem_size c.map

-- dup_shm_init; the name is NULL or not.
unfoldable pub shm_init : (ℕ → ℕ) → ShmCalls → Bool → ℕ → ℕ → ℕ → ℕ → ShmInit
shm_init pow2 c has_name num_queues slot_size num_slots dev_cap =
    if num_queues == 0 || (num_slots == 0 || (slot_size == 0 || not has_name))
    then refused
    else shm_sized c num_queues (round_up pow2 slot_size) (round_up pow2 num_slots) dev_cap
        c.page_size
