-- ===== src/Entry/Ioctl/Asks.antt =====
-- Questions to the module (kernel/dpa_main.c, DIOCGETINFO and DIOCGETRXSTATS) leave it as it was.
use mathlib.Core.Option
use dpa.Prelude.{
  ℕ, List, ◌≡◌, Bool, true, false, not, ◌&&◌, Option, none, some, if◌then◌else◌, refl,
}
use dpa.Ring.{DpaSlot}
use dpa.Netdev.{Errno, enotty, efault, eopnotsupp, NetDev, Net, Acquired, got, failed}
use dpa.Netdev.Held.{Same, Holds, acquire_netdev-Holds}
use dpa.Memory.Setup.{Params}
use dpa.Registry.{FilePriv, KernelState}
use dpa.Entry.Ioctl.{
  IocPara, Answer, info_of, ioctl_get_info, stats_of, ioctl_get_rx_stats, Cmd, get_info,
  get_rx_stats, reg, unreg, rx_sync, other, Request, copy_out, deny, dispatch, ioctl,
}

-- The same interfaces, references, memory and registration.
pub record Unchanged (s : KernelState) (priv : Option FilePriv) (a : Answer) : Type 0 where
  pub net : Same a.state.net s.net
  pub pools : a.state.pools ≡ s.pools
  pub file : a.priv ≡ priv

module _ {Name : Type 0} (find : Name → Option ℕ) (is_live : ℕ → Bool) (is_empty : Name → Bool)
    (s : KernelState) (priv : Option FilePriv) where
  nothing : Same s.net s.net
  nothing = record { devs = λ j. refl; modules = λ m. refl }

  info_of-Unchanged :
      (n : Name) (para : IocPara) (t : Net) (r : Acquired)
      → Holds find is_live s.net n t r
      → Unchanged s priv (info_of find is_live is_empty s priv para (t, r))
  unfolding info_of
  info_of-Unchanged n para t (failed e) h = record { net = h; pools = refl; file = refl }
  info_of-Unchanged n para t (got i) h = record { net = h.3; pools = refl; file = refl }

  stats_of-Unchanged :
      (get_stats : NetDev → IocPara → IocPara × Bool) (n : Name) (para : IocPara) (t : Net)
      (r : Acquired)
      → Holds find is_live s.net n t r
      → Unchanged s priv (stats_of find is_live is_empty get_stats s priv para (t, r))
  unfolding stats_of
  stats_of-Unchanged get_stats n para t (failed e) h = record { net = h; pools = refl; file = refl }
  stats_of-Unchanged get_stats n para t (got i) h = record { net = h.3; pools = refl; file = refl }

  asked :
      (b : Bool) (r t : Answer)
      → Unchanged s priv r
      → Unchanged s priv t
      → Unchanged s priv (if b then r else t)
  asked true r t hr ht = hr
  asked false r t hr ht = ht

  ioctl_get_info-Unchanged :
      (c : Params) (name : Name) (para : IocPara)
      → Unchanged s priv (ioctl_get_info find is_live is_empty c s priv name para)
  unfolding ioctl_get_info
  ioctl_get_info-Unchanged c name para =
      asked (is_empty name) _ _ (record { net = nothing; pools = refl; file = refl })
        (info_of-Unchanged name _ _ _ (acquire_netdev-Holds find is_live s.net name))

  ioctl_get_rx_stats-Unchanged :
      (get_stats : NetDev → IocPara → IocPara × Bool) (name : Name) (para : IocPara)
      → Unchanged s priv (ioctl_get_rx_stats find is_live is_empty get_stats s priv name para)
  unfolding ioctl_get_rx_stats
  ioctl_get_rx_stats-Unchanged get_stats name para =
      asked (is_empty name) _ _ (record { net = nothing; pools = refl; file = refl })
        (stats_of-Unchanged get_stats name _ _ _ (acquire_netdev-Holds find is_live s.net name))

  -- The module answers, and nothing has changed.
  abbrev pub Answered : Option Answer → Type 0
  Answered none = ⊥
  Answered (some a) = Unchanged s priv a

  chosen :
      (b : Bool) (r t : Option Answer) → Answered r → Answered t → Answered (if b then r else t)
  chosen true r t hr ht = hr
  chosen false r t hr ht = ht

  copied : (q : Request) (r : Option Answer) → Answered r → Answered (Option.map (copy_out q) r)
  unfolding copy_out
  copied q none h = elim h [ ]
  copied q (some a) h = asked _ _ _ (record { net = h.net; pools = h.pools; file = h.file }) h

-- The commands that ask, and the unknown ones
abbrev is_question : Cmd → Bool
is_question get_info = true
is_question get_rx_stats = true
is_question other = true
is_question reg = false
is_question unreg = false
is_question rx_sync = false

module _ {Name : Type 0} (find : Name → Option ℕ) (is_live : ℕ → Bool) (is_empty : Name → Bool)
    (get_stats : NetDev → IocPara → IocPara × Bool) {Env : Type 0}
    (reg_cb : Env → Bool → NetDev → NetDev × Option Errno) (buf_size : ℕ) (old : ℕ → List DpaSlot)
    (has_memory : Bool) (waits : ℕ → KernelState → KernelState) (sleeps : KernelState → KernelState)
    (sync : ℕ → ℕ → KernelState → KernelState × ℕ) (c : Params) (env : Env) (q : Request)
    (s : KernelState) (priv : Option FilePriv) (name : Name) (para : IocPara) where
  denied :
      (p : IocPara) (e : Errno)
      → Unchanged s priv (record { state = s; priv = priv; para = p; error = some e })
  denied p e = record { net = nothing find is_live is_empty s priv; pools = refl; file = refl }

  dispatch-Answered :
      (cmd : Cmd)
      → is_question cmd ≡ true
      → Answered find is_live is_empty s priv (
          dispatch find is_live is_empty get_stats reg_cb buf_size old has_memory waits sleeps sync
            c env cmd s priv name para)
  unfolding dispatch deny
  dispatch-Answered get_info h = ioctl_get_info-Unchanged find is_live is_empty s priv c name para
  dispatch-Answered get_rx_stats h =
      ioctl_get_rx_stats-Unchanged find is_live is_empty s priv get_stats name para
  dispatch-Answered reg h = cc
  dispatch-Answered unreg h = cc
  dispatch-Answered rx_sync h = cc
  dispatch-Answered other h = denied para eopnotsupp

  -- A request for an interface's information or for its statistics, or one with an unknown command:
  -- whether a check refuses it, the interface is not found, the driver fails or a copy fails, the
  -- module answers, and the interfaces, the references to them and to the modules, the memory and
  -- the file's registration are what they were.
  pub ioctl-Answered :
      (cmd : Cmd)
      → is_question cmd ≡ true
      → Answered find is_live is_empty s priv (
          ioctl find is_live is_empty get_stats reg_cb buf_size old has_memory waits sleeps sync c
            env q cmd s priv name para)
  unfolding ioctl deny
  ioctl-Answered cmd h =
      let if_chosen = chosen find is_live is_empty s priv in
      if_chosen (not q.is_magic) _ _ (denied para enotty) (
        if_chosen (q.has_direction && not q.is_accessible) _ _ (denied para efault) (
          if_chosen (q.has_arg && not q.copied_in) _ _ (denied para efault)
            (copied find is_live is_empty s priv q _ (dispatch-Answered cmd h))))
