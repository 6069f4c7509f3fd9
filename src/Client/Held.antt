-- ===== src/Client/Held.antt =====
-- What dpa_open and dpa_close (lib/libdpa.c) leave of descriptors and mappings.
use dpa.Prelude.{
  ℕ, zero, suc, ◌≡◌, ◌≢◌, ◌<◌, Bool, true, false, Option, none, some, ◌==◌, ltb, if◌then◌else◌,
  arith, refl, ◌||◌, not,
}
use dpa.Prelude.Word.{ltb_i32}
use dpa.Netdev.{dpa_magic}
use dpa.Client.{
  null, at, Handle, Process, Info, RawCalls, DupCalls, ShmHead, raw_mapped, raw_info, raw_opened,
  raw_open, info_mapped, info_sized, dup_get_info, dup_opened, dup_named, dup_open, dpa_open,
  mode_close, Result, opened, mapped, max_copies, shm_head_size, is_bad_name, unmap,
}

-- A failure leaves nothing that a close finds: no address, or no size.
abbrev Unclosable : Result → Type 0
Unclosable r = r.2 ≢ 0 → ((mode_close r.0 r.1).0 ≡ r.1) × ((mode_close r.0 r.1).1 ≢ 0)

no_addr-Unclosable : (h : Handle) (p : Process) (e : ℕ) → h.addr ≡ null → Unclosable (h, p, e)
unfolding mode_close
no_addr-Unclosable h p e no_addr f = rw no_addr (refl, (λ z. omega (arith, z)))

done-Unclosable : (h : Handle) (p : Process) → Unclosable (h, p, 0)
done-Unclosable h p e = absurd (e refl)

if-Unclosable :
    (b : Bool) (r s : Result) → Unclosable r → Unclosable s → Unclosable (if b then r else s)
if-Unclosable true r s u v = u
if-Unclosable false r s u v = v

module _ (h : Handle) (p : Process) (no_addr : h.addr ≡ null) where
  raw_mapped-Unclosable :
      (i : Info) (map : Option ℕ) → h.mem_size ≡ 0 → Unclosable (raw_mapped i map h p)
  unfolding raw_mapped mode_close
  raw_mapped-Unclosable i none no_size e = rw no_size (refl, (λ z. omega (arith, z)))
  raw_mapped-Unclosable i (some a) no_size e = absurd (e refl)

  raw_info-Unclosable :
      (map : Option ℕ) (i : Option Info) → h.mem_size ≡ 0 → Unclosable (raw_info map i h p)
  unfolding raw_info
  raw_info-Unclosable map none no_size = no_addr-Unclosable h p 17 no_addr
  raw_info-Unclosable map (some i) no_size =
      if-Unclosable (i.num_rx_queues == 0) (h, p, 12) (raw_mapped i map h p)
        (no_addr-Unclosable h p 12 no_addr) (raw_mapped-Unclosable i map no_size)

  info_mapped-Unclosable :
      (s : ShmHead) (n : ℕ) (map : Option ℕ) → Unclosable (info_mapped s n map h p)
  unfolding info_mapped
  info_mapped-Unclosable s n none = no_addr-Unclosable h p 18 no_addr
  info_mapped-Unclosable s n (some a) =
      if-Unclosable (not (s.magic == dpa_magic) || ltb n s.mem_size) _ _
        (no_addr-Unclosable h (unmap (at a) n (mapped a n p)) 11 no_addr)
        (done-Unclosable
          (record h {
            addr = at a;
            mem_size = s.mem_size;
            num_queues = s.num_queues;
            dev_model = 0;
            dev_cap = s.dev_cap;
          })
          (mapped a n p))

  info_sized-Unclosable : (c : DupCalls) (size : Option ℕ) → Unclosable (info_sized c size h p)
  unfolding info_sized
  info_sized-Unclosable c none = no_addr-Unclosable h p 17 no_addr
  info_sized-Unclosable c (some n) =
      if-Unclosable (ltb n shm_head_size) _ _ (no_addr-Unclosable h p 9 no_addr)
        (info_mapped-Unclosable c.head n c.map)

raw_opened-Unclosable :
    (c : RawCalls) (dev : Option ℕ) (h : Handle) (p : Process)
    → h.addr ≡ null
    → h.mem_size ≡ 0
    → Unclosable (raw_opened c dev h p)
unfolding raw_opened
raw_opened-Unclosable c none h p no_addr no_size = no_addr-Unclosable h p 8 no_addr
raw_opened-Unclosable c (some fd) h p no_addr no_size =
    raw_info-Unclosable (record h { fd = some fd }) (opened fd p) no_addr c.map c.info no_size

dup_opened-Unclosable :
    (c : DupCalls) (shm : Option ℕ) (h : Handle) (p : Process)
    → h.addr ≡ null
    → Unclosable (dup_opened c shm h p)
unfolding dup_opened dup_get_info
dup_opened-Unclosable c none h p no_addr = no_addr-Unclosable h p 13 no_addr
dup_opened-Unclosable c (some fd) h p no_addr =
    info_sized-Unclosable (record h { fd = some fd }) (opened fd p) no_addr c c.size

dup_named-Unclosable :
    (c : DupCalls) (name : Option ℕ) (copy_idx : ℕ) (h : Handle) (p : Process)
    → h.addr ≡ null
    → Unclosable (dup_named c name copy_idx h p)
unfolding dup_named
dup_named-Unclosable c none copy_idx h p no_addr = no_addr-Unclosable h p 4 no_addr
dup_named-Unclosable c (some n) copy_idx h p no_addr =
    if-Unclosable (ltb_i32 copy_idx 0 || not (ltb_i32 copy_idx max_copies)) _ _
      (no_addr-Unclosable h p 5 no_addr)
      (if-Unclosable (ltb 15 n) _ _ (no_addr-Unclosable h p 4 no_addr)
        (dup_opened-Unclosable c c.open_shm h p no_addr))

-- A call of dpa_open in either mode that fails, at whatever step, leaves a handle that the mode's
-- close refuses, and the close leaves the process as it is: a descriptor that was opened stays open.
pub open_failed-unclosable :
    (raw : RawCalls) (dup : DupCalls) (name : Option ℕ) (mode copy_idx : ℕ) (h : Handle)
    (p : Process)
    → mode < 2
    → (dpa_open raw dup name mode copy_idx h p).2 ≢ 0
    → let (h', q, e) = dpa_open raw dup name mode copy_idx h p in
      ((mode_close h' q).0 ≡ q) × ((mode_close h' q).1 ≢ 0)
unfolding dpa_open raw_open dup_open
open_failed-unclosable raw dup name zero copy_idx h p lt =
    if-Unclosable (is_bad_name name) _ _
      (no_addr-Unclosable
        (record h { fd = none; mode = 0; addr = null; mem_size = 0; num_queues = 0; dev_cap = 0 }) p
        4 refl)
      (raw_opened-Unclosable raw raw.open_dev
        (record h { fd = none; mode = 0; addr = null; mem_size = 0; num_queues = 0; dev_cap = 0 }) p
        refl refl)
open_failed-unclosable raw dup name (suc zero) copy_idx h p lt =
    dup_named-Unclosable dup name copy_idx
      (record h { fd = none; mode = 1; addr = null; mem_size = 0; num_queues = 0 }) p refl
open_failed-unclosable raw dup name (suc (suc mode)) copy_idx h p lt = absurd (omega arith)
