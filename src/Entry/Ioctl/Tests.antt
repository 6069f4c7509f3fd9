-- ===== src/Entry/Ioctl/Tests.antt =====
-- Runs of dpa_ioctl (kernel/dpa_main.c).
use dpa.Prelude.{
  ℕ, ◌≡◌, [], ◌∷◌, Bool, true, false, Option, none, some, replicate, bit_xor, refl, ◌==◌,
}
use dpa.Ring.{no_slot}
use dpa.Netdev.{Errno, enxio, NetDev, is_capable, dev_driver, acquire_netdev, no_rx_ring, dpa_magic}
use dpa.Memory.{MemAllocator}
use dpa.Memory.Setup.{Params}
use dpa.Pool.Samples.{five}
use dpa.Registry.{KernelState}
use dpa.Registry.Igb.{igb_reg}
use dpa.Entry.Ioctl.{
  IocPara, Answer, Cmd, get_info, get_rx_stats, unreg, Request, ioctl, dispatch, ioctl_get_info,
  ioctl_get_rx_stats, stats_of, ioctl_unreg, deny, copy_out,
}
use dpa.Entry.Ioctl.Asks.{Answered, ioctl-Answered}

abbrev allocator : MemAllocator
allocator = record { total_size = 61440; if_pool = five; ring_pool = five; buf_pool = five }

abbrev device : NetDev
device = record {
  enabled = true;
  hook = 8192;
  adapter = record {
    magic = bit_xor 8192 dpa_magic;
    refs = 0;
    excl_locks = false;
    dev_model = 1;
    num_rx_rings = 2;
    num_rx_descs = 1024;
    rx_rings = no_rx_ring ∷ no_rx_ring ∷ [];
  };
  users = 1;
  drivers = some 7 ∷ [];
}

abbrev state : KernelState
state = record { net = record { devs = λ j. device; modules = λ m. 1 }; pools = allocator }

abbrev params : Params
params = record { num_ifs = 1; num_queues = 2; num_bufs = 2048; buf_size = 2048 }

abbrev nothing : IocPara
nothing = record {
  mem_size = 0;
  num_rx_slots = 0;
  num_rx_queues = 0;
  dev_model = 0;
  word0 = 0;
  word1 = 0;
  enabled = 0;
  packets = 0;
  bytes = 0;
  drops = 0;
  errors = 0;
}

-- The last copy fails or not.
abbrev request : Bool → Request
request b = record {
  is_magic = true;
  has_direction = true;
  is_accessible = true;
  has_arg = true;
  copied_in = true;
  copied_out = b;
}

abbrev counted : NetDev → IocPara → IocPara × Bool
counted d para = (record para { packets = 5; drops = 2 }, true)

abbrev ask : Bool → Cmd → ℕ → Option Answer
ask b cmd name =
    ioctl (λ (n : ℕ). some n) (λ m. true) (λ n. n == 0) counted
      (λ (e : Bool). igb_reg (record { up = true; alter_promisc = false; promiscuity = none })) 2048
      (λ i. replicate 1 no_slot) true (λ k s. s) (λ s. s) (λ i j s. (s, 0)) params true (request b)
      cmd state none name nothing

ioctl-Answered_example :
    Answered (λ (n : ℕ). some n) (λ m. true) (λ n. n == 0) state none (ask false get_rx_stats 3)
ioctl-Answered_example =
    ioctl-Answered (λ (n : ℕ). some n) (λ m. true) (λ n. n == 0) counted
      (λ (e : Bool). igb_reg (record { up = true; alter_promisc = false; promiscuity = none })) 2048
      (λ i. replicate 1 no_slot) true (λ k s. s) (λ s. s) (λ i j s. (s, 0)) params true
      (request false) state none 3 nothing get_rx_stats refl

abbrev reply : Option Answer → Option Errno × ℕ × ℕ × ℕ
reply none = (none, 0, 0, 0)
reply (some a) = (a.error, a.para.num_rx_queues, a.para.mem_size, a.para.packets)

-- The statistics are in the answer, and the driver's interface has two rings.
statistics : reply (ask true get_rx_stats 3) ≡ (none, 2, 61440, 5)
unfolding ioctl dispatch ioctl_get_rx_stats stats_of copy_out acquire_netdev is_capable dev_driver
statistics = refl

-- Without a name, only what is said of the memory.
without_name : reply (ask true get_info 0) ≡ (none, 0, 61440, 0)
unfolding ioctl dispatch ioctl_get_info copy_out
without_name = refl

not_registered : reply (ask true unreg 3) ≡ (some enxio, 0, 0, 0)
unfolding ioctl dispatch ioctl_unreg deny copy_out
not_registered = refl
