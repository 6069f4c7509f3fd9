-- ===== src/Shm/Tests.antt =====
-- Runs of dup_shm_init (duplicator/shm.c): two queues of 512 slots, of 1,500 bytes that become 2,048.
use dpa.Prelude.{ℕ, ◌*◌, ◌^◌, ◌≡◌, [], true, false, some, none, refl, arith}
use dpa.Netdev.{dpa_magic}
use dpa.Client.{at, null, Handle, Process, DupCalls, dup_open}
use dpa.Shm.{DupShm, ShmCalls, made, leaked, shm_init, shm_sized, round_up}
use dpa.Shm.Layout.{Fits, IsLaidOut, shm_init-IsLaidOut}
use dpa.Shm.Opened.{head_of, dup_open-IsLaidOut}

abbrev pow2 : ℕ → ℕ
pow2 n = 2048

abbrev calls : ShmCalls
calls = record {
  page_size = some (2 ^ 12);
  opens = true;
  locks = true;
  empties = true;
  extends = true;
  map = some 1048576;
}

small : Fits 2 11 9 12
small = omega arith

rounded : round_up pow2 1500 ≡ 2 ^ 11
unfolding round_up
rounded = refl

exact : round_up pow2 512 ≡ 2 ^ 9
unfolding round_up
exact = refl

shm_init-IsLaidOut_example :
    (s : DupShm) × (shm_init pow2 calls true 2 1500 512 7 ≡ made 1048576 s)
    × IsLaidOut 1048576 2 (2 ^ 11) (2 ^ 9 * 2 ^ 11) s
    × (s.magic ≡ dpa_magic)
    × (s.dev_cap ≡ 7)
shm_init-IsLaidOut_example =
    shm_init-IsLaidOut pow2 calls 2 1500 512 7 11 9 12 1048576 small (omega arith) (omega arith)
      rounded exact refl (omega arith)

abbrev handle : Handle
handle = record {
  fd = none;
  mode = 0;
  addr = null;
  mem_size = 0;
  num_queues = 0;
  dev_model = 0;
  dev_cap = 0;
}

abbrev process : Process
process = record { fds = []; maps = [] }

-- The file of that run
abbrev Built : Type 0
Built = (s : DupShm) × IsLaidOut 1048576 2 (2 ^ 11) (2 ^ 9 * 2 ^ 11) s × (s.magic ≡ dpa_magic)

built : Built
built =
    let (s, e, l, m, c) =
      shm_init-IsLaidOut pow2 calls 2 1500 512 7 11 9 12 1048576 small (omega arith) (omega arith)
        rounded exact refl (omega arith) in
    (s, l, m)

dup_open-IsLaidOut_example :
    let reader : DupCalls = record {
      open_shm = some 3;
      size = some built.0.file_size;
      map = some 4096;
      head = head_of built.0;
    } in
    let (h', p', r) = dup_open reader (some 4) 1 handle process in
    (r ≡ 0)
    × (h'.fd ≡ some 3)
    × (h'.addr ≡ at 4096)
    × (h'.mem_size ≡ built.0.file_size)
    × (h'.num_queues ≡ 2)
    × (h'.dev_cap ≡ built.0.dev_cap)
dup_open-IsLaidOut_example =
    dup_open-IsLaidOut 1048576 2 (2 ^ 11) (2 ^ 9 * 2 ^ 11) built.0 3 4096 4 1 handle process built.1
      built.2 (omega arith) (omega arith)

-- Another duplicator has the lock: the descriptor stays open.
lock_held : shm_init pow2 (record calls { locks = false }) true 2 1500 512 7 ≡ leaked
unfolding shm_init shm_sized
lock_held = refl
