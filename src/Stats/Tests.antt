-- ===== src/Stats/Tests.antt =====
-- Runs of DIOCGETRXSTATS (kernel/dpa_main.c) with the drivers' counters, on two rings.
use dpa.Prelude.{ℕ, ◌+◌, ◌≡◌, [], ◌∷◌, true, false, none, some, bit_xor, bit_and, ◌⊎◌, refl}
use dpa.Netdev.{
  einval, NetDev, Net, RxRing, no_rx_ring, dpa_magic, got, acquire_netdev, is_capable, dev_driver,
}
use dpa.Pool.Samples.{five}
use dpa.Registry.{KernelState}
use dpa.Entry.Ioctl.{IocPara, ioctl_get_rx_stats}
use dpa.Stats.{CardStats, stats_range, igb_get_rx_stats, stats_in, add_rings, add_ring, with_card}
use dpa.Stats.Summed.{Answers, ForAll, ForOne, Refused, ioctl_get_rx_stats-igb}

abbrev ring : ℕ → RxRing
ring n = record no_rx_ring {
  kring = record (no_rx_ring.kring) { total_packets = n; total_bytes = n + n };
}

abbrev device : NetDev
device = record {
  enabled = true;
  hook = 8192;
  adapter = record {
    magic = bit_xor 8192 dpa_magic;
    refs = 1;
    excl_locks = true;
    dev_model = 1;
    num_rx_rings = 2;
    num_rx_descs = 1024;
    rx_rings = ring 5 ∷ ring 7 ∷ [];
  };
  users = 1;
  drivers = some 7 ∷ [];
}

abbrev state : KernelState
state = record {
  net = record { devs = λ j. device; modules = λ m. 1 };
  pools = record { total_size = 61440; if_pool = five; ring_pool = five; buf_pool = five };
}

-- All queues, and everything that is counted
abbrev question : IocPara
question = record {
  mem_size = 0;
  num_rx_slots = 0;
  num_rx_queues = 0;
  dev_model = 0;
  word0 = 4096;
  word1 = 15;
  enabled = 0;
  packets = 100;
  bytes = 100;
  drops = 100;
  errors = 100;
}

abbrev card : CardStats
card = record { carrier_ok = true; missed = 3; bad = 4 }

abbrev net : Net
net = (acquire_netdev (λ (n : ℕ). some n) (λ m. true) state.net 3).0

found : acquire_netdev (λ (n : ℕ). some n) (λ m. true) state.net 3 ≡ (net, got 3)
unfolding acquire_netdev is_capable dev_driver
found = refl

ioctl_get_rx_stats-igb_example :
    let d = net.devs 3 in
    let a =
      ioctl_get_rx_stats
        (λ (n : ℕ). some n)
        (λ m. true)
        (λ n. false)
        (igb_get_rx_stats card)
        state
        none
        3
        question in
    (ForAll question × Answers card d 0 d.adapter.num_rx_rings question a)
    ⊎ (ForOne d.adapter question × Answers card d (bit_and question.word0 4095) 1 question a)
    ⊎ (Refused d.adapter question × (a.error ≡ some einval))
ioctl_get_rx_stats-igb_example =
    ioctl_get_rx_stats-igb (λ (n : ℕ). some n) (λ m. true) (λ n. false) state none card net 3 3
      question refl refl found

twelve_packets : (igb_get_rx_stats card device question).0.packets ≡ 112
unfolding igb_get_rx_stats stats_in stats_range add_rings add_ring with_card
twelve_packets = refl

-- The drops of one queue are refused.
one_queue :
    igb_get_rx_stats card device (record question { word0 = 1 })
    ≡ (record question { word0 = 1 }, false)
unfolding igb_get_rx_stats stats_in stats_range
one_queue = refl
