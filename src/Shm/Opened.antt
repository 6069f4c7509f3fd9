-- ===== src/Shm/Opened.antt =====
-- A file of dup_shm_init (duplicator/shm.c) as dup_open (lib/dup_intf.c) finds it.
use dpa.Prelude.{ℕ, ◌≤◌, ◌<◌, ◌≡◌, some, arith}
use dpa.Prelude.Word.{ltb_i32}
use dpa.Netdev.{dpa_magic}
use dpa.Shm.{DupShm}
use dpa.Shm.Layout.{IsLaidOut}
use dpa.Client.{at, Handle, Process, DupCalls, ShmHead, dup_open}

-- The head as the library reads it
abbrev pub head_of : DupShm → ShmHead
head_of s = record {
  magic = s.magic;
  mem_size = s.mem_size;
  num_queues = s.num_queues;
  dev_cap = s.dev_cap;
}

-- A file that is laid out as dup_shm_init does is accepted by dup_open, in a process that can open and
-- map it: the handle has the mapping, the size, the number of queues and the capabilities of the head.
pub dup_open-IsLaidOut :
    (addr n slot_size size : ℕ) (s : DupShm) (fd b name copy_idx : ℕ) (h : Handle) (p : Process)
    → IsLaidOut addr n slot_size size s
    → s.magic ≡ dpa_magic
    → name ≤ 15
    → copy_idx < 8
    → let calls : DupCalls = record {
      open_shm = some fd;
      size = some s.file_size;
      map = some b;
      head = head_of s;
    } in
      let (h', p', e) = dup_open calls (some name) copy_idx h p in
      (e ≡ 0)
      × (h'.fd ≡ some fd)
      × (h'.addr ≡ at b)
      × (h'.mem_size ≡ s.file_size)
      × (h'.num_queues ≡ n)
      × (h'.dev_cap ≡ s.dev_cap)
unfolding dup_open ltb_i32
dup_open-IsLaidOut addr n slot_size size s fd b name copy_idx h p l magic short few = ground (arith)
