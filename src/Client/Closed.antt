-- ===== src/Client/Closed.antt =====
-- dpa_close (lib/libdpa.c) after a dpa_open that succeeded.
use dpa.Prelude.{
  ℕ, suc, ◌≡◌, ◌≢◌, Bool, true, false, Option, none, some, ◌==◌, leb, ltb, if◌then◌else◌, arith,
  refl, sym, ◌∙◌, ==_refl, ◌||◌, not, ne→==_false, subst,
}
use dpa.Prelude.Word.{ltb_i32}
use dpa.Netdev.{dpa_magic}
use dpa.Client.{
  cap_of, dev_caps, null, map_failed, at, Handle, Process, Info, RawCalls, DupCalls, ShmHead,
  raw_mapped, raw_info, raw_opened, raw_open, info_mapped, info_sized, dup_get_info, dup_opened,
  dup_named, dup_open, dpa_open, closed, mode_close, Result, opened, mapped, max_copies,
  shm_head_size, is_bad_name, unmap, unmapped, without,
}

-- A success of a size other than 0 is taken back by the close, which leads to process `o`.
abbrev Closable : Process → Result → Type 0
Closable o r = r.2 ≡ 0 → r.0.mem_size ≢ 0 → mode_close r.0 r.1 ≡ (o, 0)

failed-Closable : (o : Process) (h : Handle) (p : Process) (e : ℕ) → Closable o (h, p, suc e)
failed-Closable o h p e z = absurd (omega (arith, z))

if-Closable :
    (o : Process) (b : Bool) (r s : Result)
    → Closable o r
    → Closable o s
    → Closable o (if b then r else s)
if-Closable o true r s u v = u
if-Closable o false r s u v = v

leb_refl : (n : ℕ) → leb n n ≡ true
leb_refl n = ground (arith)

-- A handle with what an open that succeeded put in it.
done-Closable :
    (o : Process) (fd a n : ℕ) (h : Handle)
    → h.fd ≡ some fd
    → h.addr ≡ at a
    → h.mem_size ≡ n
    → Closable o (h, mapped a n (opened fd o), 0)
unfolding mode_close closed unmap unmapped without
done-Closable o fd a n h e f g z size =
    rw (f, e, g, ne→==_false n 0 (λ s. size (g ∙ s)), ==_refl a, leb_refl n, ==_refl fd) refl

module _ (o : Process) (fd : ℕ) (h : Handle) (has_fd : h.fd ≡ some fd) where
  raw_mapped-Closable : (i : Info) (map : Option ℕ) → Closable o (raw_mapped i map h (opened fd o))
  unfolding raw_mapped
  raw_mapped-Closable i none = failed-Closable o (record h { addr = map_failed }) (opened fd o) 9
  raw_mapped-Closable i (some a) =
      done-Closable o fd a i.mem_size
        (record h {
          addr = at a;
          mem_size = i.mem_size;
          num_queues = i.num_rx_queues;
          dev_model = i.dev_model;
          dev_cap = cap_of dev_caps i.dev_model h.dev_cap;
        })
        has_fd refl refl

  raw_info-Closable :
      (map : Option ℕ) (i : Option Info) → Closable o (raw_info map i h (opened fd o))
  unfolding raw_info
  raw_info-Closable map none = failed-Closable o h (opened fd o) 16
  raw_info-Closable map (some i) =
      if-Closable o (i.num_rx_queues == 0) _ _ (failed-Closable o h (opened fd o) 11)
        (raw_mapped-Closable i map)

  info_mapped-Closable :
      (s : ShmHead) (map : Option ℕ) → Closable o (info_mapped s s.mem_size map h (opened fd o))
  unfolding info_mapped
  info_mapped-Closable s none = failed-Closable o h (opened fd o) 17
  info_mapped-Closable s (some a) =
      if-Closable o (not (s.magic == dpa_magic) || ltb s.mem_size s.mem_size) _ _
        (failed-Closable o h (unmap (at a) s.mem_size (mapped a s.mem_size (opened fd o))) 10)
        (done-Closable o fd a s.mem_size
          (record h {
            addr = at a;
            mem_size = s.mem_size;
            num_queues = s.num_queues;
            dev_model = 0;
            dev_cap = s.dev_cap;
          })
          has_fd refl refl)

  info_sized-Closable :
      (c : DupCalls) (size : Option ℕ)
      → c.size ≡ some c.head.mem_size
      → size ≡ c.size
      → Closable o (info_sized c size h (opened fd o))
  unfolding info_sized
  info_sized-Closable c none e f = failed-Closable o h (opened fd o) 16
  info_sized-Closable c (some n) e f =
      let same : n ≡ c.head.mem_size = cc in
      subst
        (λ k. Closable o (
          if ltb k shm_head_size
          then (h, opened fd o, 9)
          else info_mapped c.head k c.map h (opened fd o)))
        (sym same)
        (if-Closable o (ltb c.head.mem_size shm_head_size) _ _ (failed-Closable o h (opened fd o) 8)
          (info_mapped-Closable c.head c.map))

raw_opened-Closable :
    (c : RawCalls) (dev : Option ℕ) (h : Handle) (p : Process) → Closable p (raw_opened c dev h p)
unfolding raw_opened
raw_opened-Closable c none h p = failed-Closable p h p 7
raw_opened-Closable c (some fd) h p =
    raw_info-Closable p fd (record h { fd = some fd }) refl c.map c.info

dup_opened-Closable :
    (c : DupCalls) (shm : Option ℕ) (h : Handle) (p : Process)
    → c.size ≡ some c.head.mem_size
    → Closable p (dup_opened c shm h p)
unfolding dup_opened dup_get_info
dup_opened-Closable c none h p e = failed-Closable p h p 12
dup_opened-Closable c (some fd) h p e =
    info_sized-Closable p fd (record h { fd = some fd }) refl c c.size e refl

dup_named-Closable :
    (c : DupCalls) (name : Option ℕ) (copy_idx : ℕ) (h : Handle) (p : Process)
    → c.size ≡ some c.head.mem_size
    → Closable p (dup_named c name copy_idx h p)
unfolding dup_named
dup_named-Closable c none copy_idx h p e = failed-Closable p h p 3
dup_named-Closable c (some n) copy_idx h p e =
    if-Closable p (ltb_i32 copy_idx 0 || not (ltb_i32 copy_idx max_copies)) _ _
      (failed-Closable p h p 4)
      (if-Closable p (ltb 15 n) _ _ (failed-Closable p h p 3)
        (dup_opened-Closable c c.open_shm h p e))

-- After a dpa_open that succeeded with a memory size other than 0, where the duplicator's file has the
-- size that its head says, the mode's close succeeds and leaves the process as it was before the open.
pub dpa_open-mode_close :
    (raw : RawCalls) (dup : DupCalls) (name : Option ℕ) (mode copy_idx : ℕ) (h : Handle)
    (p : Process)
    → dup.size ≡ some dup.head.mem_size
    → (dpa_open raw dup name mode copy_idx h p).2 ≡ 0
    → (dpa_open raw dup name mode copy_idx h p).0.mem_size ≢ 0
    → let (h', q, e) = dpa_open raw dup name mode copy_idx h p in mode_close h' q ≡ (p, 0)
unfolding dpa_open raw_open dup_open
dpa_open-mode_close raw dup name mode copy_idx h p e =
    if-Closable p (mode == 0) _ _
      (if-Closable p (is_bad_name name) _ _
        (failed-Closable p
          (record h { fd = none; mode = 0; addr = null; mem_size = 0; num_queues = 0; dev_cap = 0 })
          p 3)
        (raw_opened-Closable raw raw.open_dev
          (record h { fd = none; mode = 0; addr = null; mem_size = 0; num_queues = 0; dev_cap = 0 })
          p))
      (if-Closable p (mode == 1) _ _
        (dup_named-Closable dup name copy_idx
          (record h { fd = none; mode = 1; addr = null; mem_size = 0; num_queues = 0 }) p e)
        (failed-Closable p h p 2))
