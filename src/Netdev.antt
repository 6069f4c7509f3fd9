-- ===== src/Netdev.antt =====
-- kernel/dpa_main.c: an interface of the kernel as this module sees it. References to it and to its
-- driver's module (dpa_acquire_netdev, dpa_release_netdev), the adapter that the driver hooks in
-- (dpa_attach, dpa_detach), a reset of a ring (dpa_reset) and the interrupt (dpa_rx_irq).
-- An `int` is its two's complement pattern; the address 0 is NULL. Locks and messages are left out.
pub mod Held
pub mod Hooked
mod Tests
use dpa.Prelude.{
  ℕ, zero, suc, ◌+◌, ◌-◌, ◌%◌, ◌^◌, ◌<◌, ◌≡◌, List, [], ◌∷◌, Bool, true, false, not, ◌&&◌, Option,
  none, some, bit_or, bit_xor, if◌then◌else◌, ◌==◌, ltb, get_or, set, replicate,
}
use dpa.Prelude.Word.{u32, add32, sub32, ltb_i32}
use dpa.Window.{update}
use dpa.Ring.{DpaRing, Kring, DpaSlot}

-- The errors that the module returns, negated, and those of a driver's callback.
pub data Errno : Type 0 where
  enodev : Errno
  einval : Errno
  ebusy : Errno
  enomem : Errno
  enxio : Errno
  efault : Errno
  enotty : Errno
  eopnotsupp : Errno
  eagain : Errno
  driver_error : ℕ → Errno

-- A kernel ring with the address of the ring that it points to.
pub record RxRing : Type 0 where
  pub addr : ℕ
  pub kring : Kring

abbrev pub no_ring : DpaRing
no_ring = record {
  buf_ofs = 0;
  num_slots = 0;
  avail = 0;
  cur = 0;
  reserved = 0;
  hw_ofs = 0;
  buf_size = 0;
  slot = [];
}

-- memzero(kring, sizeof(*kring))
abbrev pub no_rx_ring : RxRing
no_rx_ring = record {
  addr = 0;
  kring = record {
    ring = no_ring;
    nr_hwcur = 0;
    nr_hwavail = 0;
    nr_kflags = 0;
    nkr_num_slots = 0;
    nkr_hwofs = 0;
    total_packets = 0;
    total_bytes = 0;
  };
}

-- struct dpa_adapter, without its locks, wait queues and callbacks
pub record DpaAdapter : Type 0 where
  pub magic : ℕ
  pub refs : ℕ
  pub excl_locks : Bool
  pub dev_model : ℕ
  pub num_rx_rings : ℕ
  pub num_rx_descs : ℕ
  pub rx_rings : List RxRing

-- struct net_device, as used: the flag in priv_flags, ax25_ptr and what it points to, the count of
-- dev_get_by_name, and the drivers of the device and of its parents.
pub record NetDev : Type 0 where
  pub enabled : Bool
  pub hook : ℕ
  pub adapter : DpaAdapter
  pub users : ℕ
  pub drivers : List (Option ℕ)

abbrev pub dpa_magic : ℕ
dpa_magic = 0xFBB854F0

-- DPA_IF_CAPABLE
unfoldable pub is_capable : NetDev → Bool
is_capable d = not (d.hook == 0) && (bit_xor (u32 d.hook) d.adapter.magic == dpa_magic)

-- DPA_IF_DELETING
unfoldable pub is_deleting : NetDev → Bool
is_deleting d = (d.adapter.refs == 0) && d.enabled

-- dpa_get_dev_driver: the first driver on the way up, by its module
unfoldable pub dev_driver : List (Option ℕ) → Option ℕ
dev_driver [] = none
dev_driver (none ∷ ds) = dev_driver ds
dev_driver (some m ∷ ds) = some m

-- The interfaces, by number, and the references to modules, by number.
pub record Net : Type 0 where
  pub devs : ℕ → NetDev
  pub modules : ℕ → ℕ

abbrev pub with_dev : Net → ℕ → NetDev → Net
with_dev s i d = record s { devs = update s.devs i d }

-- dev_get_by_name, dev_put; try_module_get, module_put
abbrev pub dev_get : Net → ℕ → Net
dev_get s i = with_dev s i (record (s.devs i) { users = (s.devs i).users + 1 })

abbrev pub dev_put : Net → ℕ → Net
dev_put s i = with_dev s i (record (s.devs i) { users = (s.devs i).users - 1 })

abbrev pub module_get : Net → ℕ → Net
module_get s m = record s { modules = update s.modules m (s.modules m + 1) }

abbrev pub module_put : Net → ℕ → Net
module_put s m = record s { modules = update s.modules m (s.modules m - 1) }

pub data Acquired : Type 0 where
  got : ℕ → Acquired
  failed : Errno → Acquired

-- Which interface has a name, and whether a module still takes references, are the kernel's.
module _ {Name : Type 0} (find : Name → Option ℕ) (is_live : ℕ → Bool) where
  -- try_module_get on the driver found
  unfoldable pub hold_module : Net → ℕ → Option ℕ → Net × Acquired
  hold_module s i none = (dev_put s i, failed einval)
  hold_module s i (some m) =
      if is_live m then (module_get s m, got i) else (dev_put s i, failed einval)

  unfoldable pub acquire_found : Net → Option ℕ → Net × Acquired
  acquire_found s none = (s, failed enodev)
  acquire_found s (some i) =
      let held = dev_get s i in
      if is_capable (s.devs i)
      then hold_module held i (dev_driver (s.devs i).drivers)
      else (dev_put held i, failed einval)

  -- dpa_acquire_netdev
  unfoldable pub acquire_netdev : Net → Name → Net × Acquired
  unfolding acquire_found hold_module
  acquire_netdev s name = acquire_found s (find name)

unfoldable pub release_module : Net → Option ℕ → Net
release_module s none = s
release_module s (some m) = module_put s m

-- dpa_release_netdev
unfoldable pub release_netdev : Net → ℕ → Net
unfolding release_module
release_netdev s i = release_module (dev_put s i) (dev_driver (s.devs i).drivers)

-- dpa_attach: what kmalloc returns, and the adapter that the driver filled in.
unfoldable pub attach : ℕ → DpaAdapter → NetDev → NetDev × Option Errno
attach mem dadp d =
    if not (d.hook == 0) then (d, some einval) else if mem == 0 then (d, some enomem) else (
      record d {
        hook = mem;
        adapter = record dadp {
          magic = bit_xor (u32 mem) dpa_magic;
          refs = 0;
          rx_rings = replicate dadp.num_rx_rings no_rx_ring;
        };
      },
      none,
    )

-- Its first test: the driver has no net_device.
unfoldable pub attach_to : ℕ → DpaAdapter → Option NetDev → Option NetDev × Option Errno
attach_to mem dadp none = (none, some enodev)
attach_to mem dadp (some d) = let (d', e) = attach mem dadp d in (some d', e)

-- dpa_detach
unfoldable pub detach : NetDev → NetDev
detach d = if d.hook == 0 then d else record d {
  hook = 0;
  adapter = record {
    magic = 0;
    refs = 0;
    excl_locks = false;
    dev_model = 0;
    num_rx_rings = 0;
    num_rx_descs = 0;
    rx_rings = [];
  };
}

-- The offset that dpa_reset gives to a ring whose card begins again at `new_cur`.
unfoldable pub reset_ofs : Kring → ℕ → ℕ
reset_ofs kr new_cur =
    let ofs = sub32 (add32 kr.nr_hwcur kr.nr_hwavail) new_cur in
    let last = sub32 kr.nkr_num_slots 1 in
    if ltb_i32 last ofs then sub32 ofs (add32 last 1) else ofs

-- dpa_reset on a hooked device: the device, and the ring's slots or NULL.
unfoldable pub reset : NetDev → ℕ → ℕ → NetDev × Option (List DpaSlot)
reset d ring_id new_cur =
    let r = get_or d.adapter.rx_rings ring_id no_rx_ring in
    let kr = record (r.kring) { nkr_hwofs = reset_ofs r.kring new_cur } in
    if not d.enabled then (d, none) else (
      record d {
        adapter = record (d.adapter) {
          rx_rings = set d.adapter.rx_rings ring_id (record r { kring = kr });
        };
      },
      some kr.ring.slot,
    )

-- What the interrupt does to locks and to waiting processes.
pub data Event : Type 0 where
  lock_queue : ℕ → Event
  unlock_queue : ℕ → Event
  lock_core : Event
  unlock_core : Event
  wake_ring : ℕ → Event
  wake_main : Event

-- dpa_rx_irq on a hooked device: the device, what it does, and `*work_done` or a return of 0.
unfoldable pub rx_irq : NetDev → ℕ → NetDev × List Event × Bool
rx_irq d ring_id =
    let r = get_or d.adapter.rx_rings ring_id no_rx_ring in
    let kr = record (r.kring) { nr_kflags = bit_or r.kring.nr_kflags 1 } in
    let d' = record d {
      adapter = record (d.adapter) {
        rx_rings = set d.adapter.rx_rings ring_id (record r { kring = kr });
      };
    } in
    let main = ltb 0 d.adapter.num_rx_rings in
    if not d.enabled
    then (d, [], false)
    else if d.adapter.excl_locks
    then (
      d',
      lock_queue ring_id
          ∷ wake_ring ring_id
          ∷ unlock_queue ring_id
          ∷ (if main then lock_core ∷ wake_main ∷ unlock_core ∷ [] else []),
      true,
    )
    else (
      d',
      lock_core
          ∷ wake_ring ring_id
          ∷ (if main then wake_main ∷ unlock_core ∷ [] else unlock_core ∷ []),
      true,
    )
