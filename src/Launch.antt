-- ===== src/Launch.antt =====
-- duplicator/duplicator.c: main and dup_create_threads, up to the start of the threads. What the
-- system calls and the module return is an argument; a file descriptor is its int32_t pattern. The
-- report of statistics that follows prints only.
pub mod Runs
pub mod Pinned
mod Tests
use dpa.Prelude.{
  ℕ, zero, suc, ◌+◌, ◌-◌, ◌*◌, ◌^◌, List, [], ◌∷◌, Bool, true, false, not, ◌||◌, ◌&&◌, Option, none,
  some, if◌then◌else◌, ◌==◌, leb, get_or, map, bit_and, bit_or,
}
use dpa.Prelude.Bits.{complement}
use dpa.Prelude.Word.{u16, add32, ltb_i32}
use dpa.Shm.{head_size, queue_size, ShmCalls, ShmInit, refused, leaked, made, shm_init}
use dpa.Options.{
  Strtol, GotOpt, DupOptions, GetOpt, dup_ok, dup_error, exits, minus_one, get_opt, set_affinity,
}

-- The callbacks dup_proc_intel and dup_proc_bnx2
pub data ProcCb : Type 0 where
  proc_intel : ProcCb
  proc_bnx2 : ProcCb

-- DEV_PROC: the callback for a model of device, and its capabilities
unfoldable pub dev_proc : ℕ → Option (ProcCb × ℕ)
dev_proc model =
    if model == 1
    then some (proc_intel, 16159)
    else if model == 2
    then some (proc_intel, 16159)
    else if model == 3
    then some (proc_bnx2, 16141)
    else none

-- The capabilities that are left: drops alone, of a queue too, are counted.
unfoldable pub shm_caps : ℕ → ℕ
shm_caps cap =
    let c = bit_and cap (complement 64 256) in
    let c = bit_and c (complement 64 512) in
    let c = bit_or c 1024 in
    let c = bit_and c (complement 64 2048) in
    let c = bit_and c (complement 64 4096) in
    let c = bit_and c (complement 64 8192) in
    let c = bit_or c 16384 in bit_and c (complement 64 32768)

-- struct dup_targs_s without its counters; the addresses of the interface and of the queues
pub record Targs : Type 0 where
  pub used : Bool
  pub fd : ℕ
  pub dif : Option ℕ
  pub queue_id : ℕ
  pub affinity : ℕ
  pub copies : ℕ
  pub out_queue : List (Option ℕ)
  pub proc_cb : Option ProcCb

abbrev pub no_targs : Targs
no_targs = record {
  used = false;
  fd = 0;
  dif = none;
  queue_id = 0;
  affinity = 0;
  copies = 0;
  out_queue = [];
  proc_cb = none;
}

-- For thread i: what open returns, the offset that DIOCREGIF gives, and whether pthread_create
-- returns -1.
pub record ThreadCalls : Type 0 where
  pub opened : ℕ
  pub registered : Option ℕ
  pub create_fails : Bool

-- The loop over the copies, n of them from copy j on; the queue of a copy that is not there is NULL.
unfoldable pub queue_of : ℕ → Option ℕ → Option ℕ
queue_of i none = none
queue_of i (some addr) = some (addr + head_size + i * queue_size)

unfoldable pub out_queues : List (Option ℕ) → ℕ → ℕ → ℕ → List (Option ℕ)
out_queues shm i zero j = []
out_queues shm i (suc n) j = queue_of i (get_or shm j none) ∷ out_queues shm i n (j + 1)

module _ {S : Type 0} (opt : DupOptions S) (dpaaddr : ℕ) (shm : List (Option ℕ)) (proc_cb : ProcCb)
    (calls : ℕ → ThreadCalls) where
  -- The CPU of a thread, when the next one is `affinity`, and what is the next one then
  unfoldable pub pin : ℕ → ℕ × ℕ
  pin affinity =
      if not opt.affinity_flag
      then (minus_one, affinity)
      else if ltb_i32 opt.affinity_end affinity
      then (minus_one, affinity)
      else (affinity, add32 affinity 1)

  -- What follows the registration; with whether the thread is counted
  unfoldable pub registered_as : ThreadCalls → Targs → Option ℕ → Targs × Bool
  registered_as c t none = (t, false)
  registered_as c t (some offset) =
      (record t { dif = some (dpaaddr + offset); used = not c.create_fails }, true)

  -- One turn of the loop of dup_create_threads: the thread, the next CPU, whether it is counted
  unfoldable pub create_thread : ℕ → ℕ → Targs × ℕ × Bool
  create_thread i affinity =
      let c = calls i in
      let (cpu, next) = pin affinity in
      let (t, counted) =
        registered_as c
          (record {
            used = false;
            fd = c.opened;
            dif = none;
            queue_id = u16 (if opt.queue_id == minus_one then i else opt.queue_id);
            affinity = cpu;
            copies = opt.copies;
            out_queue = out_queues shm i opt.copies 0;
            proc_cb = some proc_cb;
          })
          c.registered in
      if c.opened == minus_one
      then (record no_targs { fd = minus_one }, affinity, false)
      else (t, next, counted)

  -- The loop with n threads from thread i on: the threads, and how many are counted
  unfoldable pub create_from : ℕ → ℕ → ℕ → List Targs × ℕ
  create_from zero i affinity = ([], 0)
  create_from (suc n) i affinity =
      let (t, next, counted) = create_thread i affinity in
      let (ts, tcount) = create_from n (i + 1) next in
      (t ∷ ts, if counted then tcount + 1 else tcount)

  -- dup_create_threads, when malloc gives memory or not: g_targs, or DUP_ERROR
  unfoldable pub create_threads : Bool → Option (List Targs)
  create_threads allocated =
      let (ts, tcount) = create_from opt.num_queues 0 opt.affinity_begin in
      if not allocated then none else if tcount == 0 then none else some ts

-- What DIOCGETINFO gives.
pub record IocInfo : Type 0 where
  pub dev_model : ℕ
  pub num_rx_queues : ℕ
  pub buf_size : ℕ
  pub num_rx_slots : ℕ

-- What main's calls return: open, DIOCGETINFO, the number of CPUs, the calls of dup_shm_init for each
-- copy, mmap, and those of dup_create_threads.
pub record MainCalls : Type 0 where
  pub ctlfd : ℕ
  pub info : Option IocInfo
  pub ncpus : ℕ
  pub pow2 : ℕ → ℕ
  pub shm : ℕ → ShmCalls
  pub dpaaddr : Option ℕ
  pub allocated : Bool
  pub threads : ℕ → ThreadCalls

infixl 5 ◌>>=◌
abbrev pub ◌>>=◌ {ℓ κ} : {A : Type ℓ} {B : Type κ} → Option A → (A → Option B) → Option B
none >>= next = none
some x >>= next = next x

-- The check of the queue, and the number of queues
unfoldable pub with_queues : {S : Type 0} → IocInfo → DupOptions S → Option (DupOptions S)
with_queues info opt =
    if info.num_rx_queues == 0
    then none
    else if not (ltb_i32 opt.queue_id info.num_rx_queues)
    then none
    else some (record opt { num_queues = if ltb_i32 opt.queue_id 0 then info.num_rx_queues else 1 })

unfoldable pub with_cpus : {S : Type 0} → ℕ → DupOptions S → Option (DupOptions S)
with_cpus ncpus opt = if not opt.affinity_flag then some opt else do
  r ← set_affinity ncpus opt.num_queues opt.affinity_begin opt.affinity_end
  some (record opt { affinity_begin = r.0; affinity_end = r.1 })

unfoldable pub address_of : ShmInit → Option ℕ
address_of refused = none
address_of leaked = none
address_of (made addr s) = some addr

-- The loop over the copies, n of them from copy i on: the addresses of their shared memory
unfoldable pub init_shm :
    {S : Type 0} → MainCalls → DupOptions S → IocInfo → ℕ → ℕ → ℕ → Option (List (Option ℕ))
init_shm calls opt info cap zero i = some []
init_shm calls opt info cap (suc n) i = do
  let area =
      shm_init calls.pow2 (calls.shm i) true opt.num_queues info.buf_size info.num_rx_slots cap
  addr ← address_of area
  rest ← init_shm calls opt info cap n (i + 1)
  some (some addr ∷ rest)

-- main after dup_get_opt and DIOCGETINFO: the options and the threads, or the return of DUP_ERROR
unfoldable pub start_copies :
    {S : Type 0} → MainCalls → DupOptions S → IocInfo → Option (DupOptions S × List Targs)
start_copies calls opt info = do
  p ← dev_proc info.dev_model
  opt' ← with_queues info opt
  opt'' ← with_cpus calls.ncpus opt'
  shm ← init_shm calls opt'' info (shm_caps p.1) opt''.copies 0
  dpaaddr ← calls.dpaaddr
  ts ← create_threads opt'' dpaaddr shm p.0 calls.threads calls.allocated
  some (opt'', ts)

-- main, up to the report
unfoldable pub main_of : {S : Type 0} → MainCalls → GetOpt S → Option (DupOptions S × List Targs)
main_of calls dup_error = none
main_of calls (exits code) = none
main_of calls (dup_ok opt) =
    if calls.ctlfd == minus_one then none else do info ← calls.info; start_copies calls opt info
