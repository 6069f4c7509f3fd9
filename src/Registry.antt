-- ===== src/Registry.antt =====
-- kernel/dpa_main.c: how a process registers its open file to an interface and gives it up again
-- (dpa_reg_if, dpa_destructor_locked, dpa_destructor, dpa_release). The registration lock is given up
-- in two places, where what other processes do in between is an argument: in the wait for an
-- interface that is being deleted, and in the sleep before the last user's rings are freed.
pub mod Life
pub mod Inv
pub mod Counted
pub mod Kept
pub mod Wait
pub mod Igb
mod Tests
use dpa.Prelude.{
  ℕ, zero, suc, ◌+◌, ◌-◌, ◌%◌, ◌^◌, List, [], ◌∷◌, Bool, true, false, not, Option, none, some,
  if◌then◌else◌, ◌==◌,
}
use dpa.Prelude.Word.{sub32, ltb_i32}
use dpa.Ring.{DpaSlot}
use dpa.Netdev.{
  Errno, enodev, einval, ebusy, enomem, NetDev, DpaAdapter, RxRing, Net, with_dev, is_deleting,
  Acquired, got, failed, acquire_netdev, release_netdev,
}
use dpa.Pool.{ObjPool, obj_free_va}
use dpa.Memory.{MemAllocator, free_ring_bufs, free_rings, NewIf, new_if}
use dpa.Session.{DpaPriv, set_ring_id}

-- struct dpa_priv: the interface's object, the interface, and the rings
pub record FilePriv : Type 0 where
  pub dif : ℕ
  pub dev : ℕ
  pub range : DpaPriv

-- The interfaces with the references, and the module's memory
pub record KernelState : Type 0 where
  pub net : Net
  pub pools : MemAllocator

abbrev pub dev_of : KernelState → ℕ → NetDev
dev_of s i = s.net.devs i

abbrev pub set_dev : KernelState → ℕ → NetDev → KernelState
set_dev s i d = record s { net = with_dev s.net i d }

-- What a registration comes to before the lock is given up: an error, a user, or an error of the
-- driver after which the new user goes again.
pub data Outcome : Type 0 where
  refused : Errno → KernelState → Outcome
  registered : FilePriv → KernelState → Outcome
  undo : Errno → FilePriv → KernelState → Outcome

unfoldable pub free_all_bufs : ObjPool → List RxRing → ObjPool
free_all_bufs p [] = p
free_all_bufs p (r ∷ rs) = free_all_bufs (free_ring_bufs p r) rs

-- `dadp->refs--`, and its test `refs <= 0`
unfoldable pub leave : KernelState → ℕ → KernelState
leave s i =
    let d = dev_of s i in
    set_dev s i (record d { adapter = record (d.adapter) { refs = sub32 d.adapter.refs 1 } })

unfoldable pub is_last : NetDev → Bool
is_last d = not (ltb_i32 0 d.adapter.refs)

-- dpa_if_free
unfoldable pub if_free : KernelState → ℕ → KernelState
if_free s dif = record s { pools = record (s.pools) { if_pool = obj_free_va s.pools.if_pool dif } }

-- The driver's callback `reg`, in surroundings that the driver looks at.
module _ {Env : Type 0} (reg : Env → Bool → NetDev → NetDev × Option Errno) where
  -- What dpa_destructor_locked does after its sleep.
  unfoldable pub tear_down : Env → KernelState → ℕ → KernelState
  tear_down env s i =
      let rings = (dev_of s i).adapter.rx_rings in
      record (set_dev s i (reg env false (dev_of s i)).0) {
        pools = record (s.pools) {
          buf_pool = free_all_bufs s.pools.buf_pool rings;
          ring_pool = free_rings s.pools.ring_pool rings;
        };
      }

  -- dpa_destructor_locked; `others` is what other processes do while it sleeps.
  unfoldable pub destructor_locked :
      Env → (KernelState → KernelState) → KernelState → FilePriv → KernelState
  destructor_locked env others s p =
      let s' = leave s p.dev in
      if_free (if is_last (dev_of s' p.dev) then tear_down env (others s') p.dev else s') p.dif

  -- dpa_destructor, and dpa_release of a registered file
  unfoldable pub destructor :
      Env → (KernelState → KernelState) → KernelState → FilePriv → KernelState
  destructor env others s p =
      let s' = destructor_locked env others s p in record s' { net = release_netdev s'.net p.dev }

  unfoldable pub release :
      Env → (KernelState → KernelState) → KernelState → Option FilePriv → KernelState
  release env others s none = s
  release env others s (some p) = destructor env others s p

  -- The tests of dpa_reg_if under the lock, the last first.
  unfoldable pub switched_on : FilePriv → KernelState → NetDev × Option Errno → Outcome
  switched_on p s (d, none) = registered p (set_dev s p.dev d)
  switched_on p s (d, some e) = undo e p (set_dev s p.dev d)

  unfoldable pub with_new_if : Env → KernelState → ℕ → DpaPriv → Option NewIf → Option Outcome
  with_new_if env s i range none = none
  with_new_if env s i range (some t) =
      let d = record (dev_of s i) { adapter = t.adapter } in
      let s' = record (set_dev s i d) { pools = t.pools } in
      let p : FilePriv = record { dif = t.dif; dev = i; range = range } in
      if t.dif == 0
      then some (refused enomem s')
      else if d.enabled
      then some (registered p s')
      else some (switched_on p s' (reg env true d))

  module _ (buf_size : ℕ) (old : ℕ → List DpaSlot) where
    unfoldable pub with_range : Env → KernelState → ℕ → Option DpaPriv → Option Outcome
    with_range env s i none = some (refused einval s)
    with_range env s i (some range) =
        let d = dev_of s i in
        if d.adapter.refs == d.adapter.num_rx_rings
        then some (refused ebusy s)
        else with_new_if env s i range (new_if buf_size old s.pools d.adapter)

    unfoldable pub reg_locked : Env → KernelState → ℕ → ℕ → Option Outcome
    unfolding with_range with_new_if switched_on
    reg_locked env s i queue_id = with_range env s i (
        set_ring_id (dev_of s i).adapter.num_rx_rings
          (record { ring_id = 0; rfirst = 0; rlast = 0 }) queue_id)

    -- The loop of ten tries, with n of them left: the state, and whether the lock is had.
    unfoldable pub wait_deleted :
        ℕ → (ℕ → KernelState → KernelState) → KernelState → ℕ → KernelState × Bool
    wait_deleted zero others s i = (s, false)
    wait_deleted (suc n) others s i =
        let later = wait_deleted n others (others (suc n) s) i in
        if is_deleting (dev_of s i) then later else (s, true)

    -- What dpa_reg_if leaves: `*ppriv` and the error.
    pub record Registered : Type 0 where
      pub state : KernelState
      pub priv : Option FilePriv
      pub error : Option Errno

    abbrev refuse : Errno → KernelState → ℕ → Registered
    refuse e s i = record {
      state = record s { net = release_netdev s.net i };
      priv = none;
      error = some e;
    }

    unfoldable pub reg_end :
        Env → (KernelState → KernelState) → ℕ → Option Outcome → Option Registered
    reg_end env others i none = none
    reg_end env others i (some (refused e s)) = some (refuse e s i)
    reg_end env others i (some (registered p s)) =
        some (record { state = s; priv = some p; error = none })
    reg_end env others i (some (undo e p s)) = some (refuse e (destructor_locked env others s p) i)

    unfoldable pub reg_waited :
        Env → (KernelState → KernelState) → ℕ → ℕ → KernelState × Bool → Option Registered
    reg_waited env others i queue_id (s, false) = some (refuse ebusy s i)
    reg_waited env others i queue_id (s, true) = reg_end env others i (reg_locked env s i queue_id)

    -- What sleeps let in: `waits` in each try, `sleeps` in the destructor. `has_memory` is kmalloc's.
    module _ {Name : Type 0} (find : Name → Option ℕ) (is_live : ℕ → Bool) (has_memory : Bool)
        (waits : ℕ → KernelState → KernelState) (sleeps : KernelState → KernelState) where
      unfoldable pub reg_acquired : Env → KernelState → ℕ → Net × Acquired → Option Registered
      reg_acquired env s queue_id (net, failed e) =
          some (record { state = record s { net = net }; priv = none; error = some e })
      reg_acquired env s queue_id (net, got i) =
          let s' = record s { net = net } in
          if has_memory
          then reg_waited env sleeps i queue_id (wait_deleted 10 waits s' i)
          else some (refuse enomem s' i)

      -- dpa_reg_if for a file that is registered already
      unfoldable pub reg_again : KernelState → FilePriv → Option DpaPriv → Registered
      reg_again s p none = record { state = s; priv = some p; error = some einval }
      reg_again s p (some range) = record {
        state = s;
        priv = some (record p { range = range });
        error = none;
      }

      -- dpa_reg_if
      unfoldable pub reg_if : Env → KernelState → Option FilePriv → Name → ℕ → Option Registered
      reg_if env s none name queue_id =
          reg_acquired env s queue_id (acquire_netdev find is_live s.net name)
      reg_if env s (some p) name queue_id =
          some (reg_again s p (set_ring_id (dev_of s p.dev).adapter.num_rx_rings p.range queue_id))
