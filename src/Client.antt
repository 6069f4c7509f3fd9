-- ===== src/Client.antt =====
-- The client library: a handle and what it holds of the process's descriptors and mappings
-- (lib/libdpa.c; raw_open, raw_loop, raw_close of lib/raw_intf.c; dup_open, dup_get_info,
-- dup_get_rx_stats, dup_close of lib/dup_intf.c). What the system calls return is an argument. An
-- int32_t is its two's complement pattern; the device's name is left out but for its length.
pub mod Held
pub mod Closed
pub mod Drops
mod Tests
use dpa.Prelude.{
  ℕ, zero, suc, ◌+◌, ◌-◌, ◌%◌, ◌^◌, List, [], ◌∷◌, Bool, true, false, not, ◌&&◌, ◌||◌, Option, none,
  some, bit_and, if◌then◌else◌, ◌==◌, ltb, leb, get_or, length,
}
use dpa.Prelude.Word.{u8, u32, u64, ltb_i32}
use dpa.Queue.{DupQueue}
use dpa.Netdev.{dpa_magic}
use dpa.Raw.{DpaStats}

-- A `void *`: NULL, MAP_FAILED, or an address.
pub data Address : Type 0 where
  null : Address
  map_failed : Address
  at : ℕ → Address

-- dpa_t; the descriptor -1 is `none`.
pub record Handle : Type 0 where
  pub fd : Option ℕ
  pub mode : ℕ
  pub dev_model : ℕ
  pub addr : Address
  pub mem_size : ℕ
  pub num_queues : ℕ
  pub dev_cap : ℕ

-- The open descriptors and the mappings, address and length.
pub record Process : Type 0 where
  pub fds : List ℕ
  pub maps : List (ℕ × ℕ)

-- close and munmap
unfoldable pub without : ℕ → List ℕ → List ℕ
without fd [] = []
without fd (x ∷ xs) = if x == fd then xs else x ∷ without fd xs

unfoldable pub unmapped : ℕ → ℕ → List (ℕ × ℕ) → List (ℕ × ℕ)
unmapped a n [] = []
unmapped a n (m ∷ ms) =
    if m.0 == a then if leb m.1 n then ms else (a + n, m.1 - n) ∷ ms else m ∷ unmapped a n ms

unfoldable pub unmap : Address → ℕ → Process → Process
unmap null n p = p
unmap map_failed n p = p
unmap (at a) n p = record p { maps = unmapped a n p.maps }

abbrev opened : ℕ → Process → Process
opened fd p = record p { fds = fd ∷ p.fds }

abbrev mapped : ℕ → ℕ → Process → Process
mapped a n p = record p { maps = (a, n) ∷ p.maps }

abbrev Result : Type 0
Result = Handle × Process × ℕ

-- The capabilities in DEV_PROC, by model: `&` binds tighter than `|`.
abbrev pub dev_caps : List (ℕ × ℕ)
dev_caps = (1, 16159) ∷ (2, 16159) ∷ (3, 16141) ∷ []

unfoldable pub cap_of : List (ℕ × ℕ) → ℕ → ℕ → ℕ
cap_of [] model old = old
cap_of (c ∷ cs) model old = if model == c.0 then c.1 else cap_of cs model old

-- What DIOCGETINFO gives.
pub record Info : Type 0 where
  pub mem_size : ℕ
  pub num_rx_queues : ℕ
  pub dev_model : ℕ

-- What open, ioctl and mmap return to raw_open.
pub record RawCalls : Type 0 where
  pub open_dev : Option ℕ
  pub info : Option Info
  pub map : Option ℕ

unfoldable pub raw_mapped : Info → Option ℕ → Handle → Process → Result
raw_mapped i none h p = (record h { addr = map_failed }, p, 10)
raw_mapped i (some a) h p = (
  record h {
    addr = at a;
    mem_size = i.mem_size;
    num_queues = i.num_rx_queues;
    dev_model = i.dev_model;
    dev_cap = cap_of dev_caps i.dev_model h.dev_cap;
  },
  mapped a i.mem_size p,
  0,
)

unfoldable pub raw_info : Option ℕ → Option Info → Handle → Process → Result
raw_info map none h p = (h, p, 17)
raw_info map (some i) h p = if i.num_rx_queues == 0 then (h, p, 12) else raw_mapped i map h p

unfoldable pub raw_opened : RawCalls → Option ℕ → Handle → Process → Result
raw_opened c none h p = (h, p, 8)
raw_opened c (some fd) h p = raw_info c.map c.info (record h { fd = some fd }) (opened fd p)

-- The length of the name, if it is not NULL: at most 15 characters.
abbrev is_bad_name : Option ℕ → Bool
is_bad_name none = true
is_bad_name (some n) = ltb 15 n

-- raw_open on a handle
unfoldable pub raw_open : RawCalls → Option ℕ → Handle → Process → Result
unfolding raw_opened raw_info raw_mapped
raw_open c name h p =
    let h' = record h {
      fd = none;
      mode = 0;
      addr = null;
      mem_size = 0;
      num_queues = 0;
      dev_cap = 0;
    } in
    if is_bad_name name then (h', p, 4) else raw_opened c c.open_dev h' p

-- struct dup_shm, its head
pub record ShmHead : Type 0 where
  pub magic : ℕ
  pub mem_size : ℕ
  pub num_queues : ℕ
  pub dev_cap : ℕ

-- What shm_open, fstat and mmap return to dup_open, and what the file holds.
pub record DupCalls : Type 0 where
  pub open_shm : Option ℕ
  pub size : Option ℕ
  pub map : Option ℕ
  pub head : ShmHead

-- sizeof(struct dup_shm), DUP_MAX_COPIES
abbrev pub shm_head_size : ℕ
shm_head_size = 24

abbrev max_copies : ℕ
max_copies = 8

unfoldable pub info_mapped : ShmHead → ℕ → Option ℕ → Handle → Process → Result
info_mapped s n none h p = (h, p, 18)
info_mapped s n (some a) h p =
    if not (s.magic == dpa_magic) || ltb n s.mem_size
    then (h, unmap (at a) n (mapped a n p), 11)
    else (
      record h {
        addr = at a;
        mem_size = s.mem_size;
        num_queues = s.num_queues;
        dev_model = 0;
        dev_cap = s.dev_cap;
      },
      mapped a n p,
      0,
    )

unfoldable pub info_sized : DupCalls → Option ℕ → Handle → Process → Result
info_sized c none h p = (h, p, 17)
info_sized c (some n) h p =
    if ltb n shm_head_size then (h, p, 9) else info_mapped c.head n c.map h p

-- dup_get_info
unfoldable pub dup_get_info : DupCalls → Option ℕ → Handle → Process → Result
dup_get_info c none h p = (h, p, 8)
dup_get_info c (some fd) h p = info_sized c c.size h p

unfoldable pub dup_opened : DupCalls → Option ℕ → Handle → Process → Result
dup_opened c none h p = (h, p, 13)
dup_opened c (some fd) h p = dup_get_info c (some fd) (record h { fd = some fd }) (opened fd p)

unfoldable pub dup_named : DupCalls → Option ℕ → ℕ → Handle → Process → Result
dup_named c none copy_idx h p = (h, p, 4)
dup_named c (some n) copy_idx h p =
    if ltb_i32 copy_idx 0 || not (ltb_i32 copy_idx max_copies)
    then (h, p, 5)
    else if ltb 15 n
    then (h, p, 4)
    else dup_opened c c.open_shm h p

-- dup_open on a handle
unfoldable pub dup_open : DupCalls → Option ℕ → ℕ → Handle → Process → Result
unfolding dup_named dup_opened dup_get_info info_sized info_mapped
dup_open c name copy_idx h p =
    dup_named c name copy_idx
      (record h { fd = none; mode = 1; addr = null; mem_size = 0; num_queues = 0 }) p

-- dpa_open on a handle
unfoldable pub dpa_open : RawCalls → DupCalls → Option ℕ → ℕ → ℕ → Handle → Process → Result
dpa_open raw dup name mode copy_idx h p =
    if mode == 0
    then raw_open raw name h p
    else if mode == 1
    then dup_open dup name copy_idx h p
    else (h, p, 3)

unfoldable pub closed : Option ℕ → Process → Process × ℕ
closed none p = (p, 8)
closed (some fd) p = (record p { fds = without fd p.fds }, 0)

abbrev is_null : Address → Bool
is_null null = true
is_null map_failed = false
is_null (at a) = false

-- raw_close and dup_close, which are the same code, on a handle
unfoldable pub mode_close : Handle → Process → Process × ℕ
unfolding closed
mode_close h p =
    if is_null h.addr
    then (p, 10)
    else if h.mem_size == 0
    then (p, 9)
    else closed h.fd (unmap h.addr h.mem_size p)

-- dpa_close
unfoldable pub dpa_close : Option Handle → Process → Process × ℕ
dpa_close none p = (p, 7)
dpa_close (some h) p = if leb h.mode 1 then mode_close h p else (p, 3)

-- raw_loop up to the call of the receiving loop: what open and DIOCREGIF return, `none` for EBUSY and
-- `some none` for another error, or the offset of the interface's object.
pub data Loop : Type 0 where
  ends : ℕ → Loop
  receives : ℕ → ℕ → Loop

unfoldable pub raw_registered : ℕ → Option (Option ℕ) → Loop
raw_registered model none = ends 14
raw_registered model (some none) = ends 16
raw_registered model (some (some offset)) = receives model offset

unfoldable pub raw_loop_opened : ℕ → Option ℕ → Option (Option ℕ) → Process → Process × Loop
raw_loop_opened model none reg p = (p, ends 8)
raw_loop_opened model (some fd) reg p = (opened fd p, raw_registered model reg)

unfoldable pub raw_loop :
    Bool → ℕ → Option ℕ → Option (Option ℕ) → Handle → Process → Process × Loop
raw_loop has_callback queue_id open_dev reg h p =
    if is_null h.addr || not has_callback
    then (p, ends 7)
    else if ltb_i32 queue_id 0 || not (ltb_i32 queue_id h.num_queues)
    then (p, ends 6)
    else if cap_of dev_caps h.dev_model 0 == 0
    then (p, ends 2)
    else raw_loop_opened h.dev_model open_dev reg p

-- The loop of dup_get_rx_stats over n queues from `i` on
unfoldable pub drops_from : ℕ → ℕ → (ℕ → DupQueue) → ℕ → ℕ
drops_from zero i queues drops = drops
drops_from (suc n) i queues drops =
    drops_from n (i + 1) queues (u64 (drops + (queues i).drop_packets))

-- dup_get_rx_stats on shared memory with the queues `queues`; the caller's `drops` is not set to 0.
unfoldable pub dup_get_rx_stats :
    Handle → ShmHead → (ℕ → DupQueue) → ℕ → ℕ → DpaStats → DpaStats × ℕ
dup_get_rx_stats h s queues op_code queue_id stats =
    let id = bit_and queue_id 4095 in
    if is_null h.addr
    then (stats, 10)
    else if not (s.magic == dpa_magic)
    then (stats, 11)
    else if not (op_code == 4)
    then (stats, 2)
    else if not (bit_and queue_id 4096 == 0)
    then (record stats { enabled = 1; drops = drops_from s.num_queues 0 queues stats.drops }, 0)
    else if not (ltb_i32 id s.num_queues)
    then (stats, 6)
    else (record stats { enabled = 1; drops = drops_from 1 id queues stats.drops }, 0)
