-- ===== src/Entry/Ioctl.antt =====
-- kernel/dpa_main.c, dpa_ioctl. What the kernel's checks and copies say, and the driver's callbacks,
-- are arguments, and so is the test for an empty name. The union in struct ioc_para is two words.
pub mod Asks
mod Tests
use dpa.Prelude.{
  ℕ, zero, suc, ◌+◌, ◌-◌, List, Bool, true, false, not, ◌&&◌, Option, none, some, if◌then◌else◌,
  ◌==◌, get_or,
}
use mathlib.Core.Option
use dpa.Prelude.Word.{u8, u16, u32}
use dpa.Ring.{DpaSlot}
use dpa.Netdev.{
  Errno, einval, enotty, efault, enxio, eopnotsupp, NetDev, Net, Acquired, got, failed, no_rx_ring,
  acquire_netdev, release_netdev,
}
use dpa.Memory.{MemAllocator, if_offset}
use dpa.Memory.Setup.{Params}
use dpa.Session.{DpaPriv, ioctl_rx_sync}
use dpa.Registry.{FilePriv, KernelState, dev_of, Registered, reg_if, destructor}

-- struct ioc_para, without its name and the time stamp: `word0` is offset, num_bufs and the
-- statistics' queue_id; `word1` is queue_id, buf_size and op_code.
pub record IocPara : Type 0 where
  pub mem_size : ℕ
  pub num_rx_slots : ℕ
  pub num_rx_queues : ℕ
  pub dev_model : ℕ
  pub word0 : ℕ
  pub word1 : ℕ
  pub enabled : ℕ
  pub packets : ℕ
  pub bytes : ℕ
  pub drops : ℕ
  pub errors : ℕ

pub data Cmd : Type 0 where
  get_info : Cmd
  reg : Cmd
  unreg : Cmd
  rx_sync : Cmd
  get_rx_stats : Cmd
  other : Cmd

-- The file's registration, the state, the answer and the error.
pub record Answer : Type 0 where
  pub state : KernelState
  pub priv : Option FilePriv
  pub para : IocPara
  pub error : Option Errno

module _ {Name : Type 0} (find : Name → Option ℕ) (is_live : ℕ → Bool)
    (is_empty : Name → Bool) where
  -- The fields that DIOCGETINFO and DIOCGETRXSTATS take of an interface
  abbrev of_dev : NetDev → IocPara → IocPara
  of_dev d para = record para {
    num_rx_queues = u16 d.adapter.num_rx_rings;
    num_rx_slots = d.adapter.num_rx_descs;
    dev_model = d.adapter.dev_model;
  }

  unfoldable pub info_of : KernelState → Option FilePriv → IocPara → Net × Acquired → Answer
  info_of s priv para (net, failed e) = record {
    state = record s { net = net };
    priv = priv;
    para = para;
    error = some e;
  }
  info_of s priv para (net, got i) = record {
    state = record s { net = release_netdev net i };
    priv = priv;
    para = of_dev (net.devs i) para;
    error = none;
  }

  -- DIOCGETINFO
  unfoldable pub ioctl_get_info : Params → KernelState → Option FilePriv → Name → IocPara → Answer
  unfolding info_of
  ioctl_get_info c s priv name para =
      let para' = record para {
        mem_size = s.pools.total_size;
        num_rx_queues = 0;
        num_rx_slots = 0;
        word0 = c.num_bufs;
        word1 = c.buf_size;
      } in
      if is_empty name
      then (record { state = s; priv = priv; para = para'; error = none })
      else info_of s priv para' (acquire_netdev find is_live s.net name)

  module _ (get_stats : NetDev → IocPara → IocPara × Bool) where
    unfoldable pub stats_of : KernelState → Option FilePriv → IocPara → Net × Acquired → Answer
    stats_of s priv para (net, failed e) = record {
      state = record s { net = net };
      priv = priv;
      para = para;
      error = some e;
    }
    stats_of s priv para (net, got i) =
        let d = net.devs i in
        let (para', is_ok) =
          get_stats d (record (of_dev d para) { enabled = if d.enabled then 1 else 0 }) in
        record {
          state = record s { net = release_netdev net i };
          priv = priv;
          para = para';
          error = if is_ok then none else some einval;
        }

    -- DIOCGETRXSTATS; `errors` is not set to 0.
    unfoldable pub ioctl_get_rx_stats : KernelState → Option FilePriv → Name → IocPara → Answer
    unfolding stats_of
    ioctl_get_rx_stats s priv name para =
        let para' = record para {
          mem_size = s.pools.total_size;
          num_rx_queues = 0;
          num_rx_slots = 0;
          packets = 0;
          bytes = 0;
          drops = 0;
        } in
        if is_empty name
        then (record { state = s; priv = priv; para = para'; error = none })
        else stats_of s priv para' (acquire_netdev find is_live s.net name)

-- DIOCREGIF: what dpa_reg_if leaves, and the answer
unfoldable pub with_registered :
    KernelState → Option FilePriv → IocPara → Option Errno → Option FilePriv → Answer
with_registered s old_priv para none (some p) =
    let d = (dev_of s p.dev).adapter in
    record {
      state = s;
      priv = some p;
      para = record para {
        num_rx_queues = u16 d.num_rx_rings;
        num_rx_slots = d.num_rx_descs;
        mem_size = s.pools.total_size;
        dev_model = d.dev_model;
        word0 = u32 (if_offset s.pools p.dif);
      };
      error = none;
    }
with_registered s old_priv para none none = record {
  state = s;
  priv = old_priv;
  para = para;
  error = none;
}
with_registered s old_priv para (some e) p = record {
  state = s;
  priv = old_priv;
  para = para;
  error = some e;
}

-- What the checks before and after the switch find: the number's magic, the directions of the
-- command, access_ok, a NULL argument, and the two copies.
pub record Request : Type 0 where
  pub is_magic : Bool
  pub has_direction : Bool
  pub is_accessible : Bool
  pub has_arg : Bool
  pub copied_in : Bool
  pub copied_out : Bool

unfoldable pub copy_out : Request → Answer → Answer
copy_out q a = if q.has_arg && not q.copied_out then record a { error = some efault } else a

module _ {Name : Type 0} (find : Name → Option ℕ) (is_live : ℕ → Bool) (is_empty : Name → Bool)
    (get_stats : NetDev → IocPara → IocPara × Bool) {Env : Type 0}
    (reg_cb : Env → Bool → NetDev → NetDev × Option Errno) (buf_size : ℕ) (old : ℕ → List DpaSlot)
    (has_memory : Bool) (waits : ℕ → KernelState → KernelState) (sleeps : KernelState → KernelState)
    (sync : ℕ → ℕ → KernelState → KernelState × ℕ) (c : Params) where
  -- An answer with nothing but an error
  unfoldable pub deny : KernelState → Option FilePriv → IocPara → Errno → Option Answer
  deny s priv para e = some (record { state = s; priv = priv; para = para; error = some e })

  unfoldable pub ioctl_reg : Env → KernelState → Option FilePriv → Name → IocPara → Option Answer
  ioctl_reg env s priv name para =
      Option.map
        (λ (r : Registered reg_cb buf_size old). with_registered r.state priv para r.error r.priv)
        (reg_if reg_cb buf_size old find is_live has_memory waits sleeps env s priv name para.word1)

  unfoldable pub ioctl_unreg : Env → KernelState → Option FilePriv → IocPara → Option Answer
  ioctl_unreg env s none para = deny s none para enxio
  ioctl_unreg env s (some p) para =
      some (record {
        state = destructor reg_cb env sleeps s p;
        priv = none;
        para = para;
        error = none;
      })

  unfoldable pub ioctl_sync : KernelState → Option FilePriv → IocPara → Option Answer
  ioctl_sync s none para = deny s none para enxio
  ioctl_sync s (some p) para =
      let d = (dev_of s p.dev).adapter in
      some (record {
        state =
            ioctl_rx_sync
              (λ (t : KernelState) i.
                (get_or (dev_of t p.dev).adapter.rx_rings i no_rx_ring).kring.ring.avail)
              (sync p.dev) d.num_rx_rings p.range s;
        priv = some p;
        para = para;
        error = none;
      })

  -- The switch
  unfoldable pub dispatch :
      Env → Cmd → KernelState → Option FilePriv → Name → IocPara → Option Answer
  dispatch env get_info s priv name para =
      some (ioctl_get_info find is_live is_empty c s priv name para)
  dispatch env reg s priv name para = ioctl_reg env s priv name para
  dispatch env unreg s priv name para = ioctl_unreg env s priv para
  dispatch env rx_sync s priv name para = ioctl_sync s priv para
  dispatch env get_rx_stats s priv name para =
      some (ioctl_get_rx_stats find is_live is_empty get_stats s priv name para)
  dispatch env other s priv name para = deny s priv para eopnotsupp

  -- dpa_ioctl
  unfoldable pub ioctl :
      Env → Request → Cmd → KernelState → Option FilePriv → Name → IocPara → Option Answer
  ioctl env q cmd s priv name para =
      if not q.is_magic
      then deny s priv para enotty
      else if q.has_direction && not q.is_accessible
      then deny s priv para efault
      else if q.has_arg && not q.copied_in
      then deny s priv para efault
      else Option.map (copy_out q) (dispatch env cmd s priv name para)
