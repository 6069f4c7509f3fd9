-- ===== src/Netdev/Tests.antt =====
-- Runs of the interface bookkeeping of kernel/dpa_main.c.
use dpa.Prelude.{ℕ, ◌≡◌, [], ◌∷◌, true, Option, none, some, refl, bit_xor}
use dpa.Ring.{Kring}
use dpa.Netdev.{
  NetDev, DpaAdapter, Net, got, no_rx_ring, is_capable, dev_driver, acquire_netdev, dpa_magic,
  rx_irq, lock_queue, unlock_queue, lock_core, unlock_core, wake_ring, wake_main,
}
use dpa.Netdev.Held.{Holds, acquire_netdev-Holds}

abbrev adapter : DpaAdapter
adapter = record {
  magic = bit_xor 8192 dpa_magic;
  refs = 0;
  excl_locks = true;
  dev_model = 1;
  num_rx_rings = 1;
  num_rx_descs = 8;
  rx_rings = no_rx_ring ∷ [];
}

-- The device has no driver of its own; its parent has.
abbrev device : NetDev
device = record {
  enabled = true;
  hook = 8192;
  adapter = adapter;
  users = 0;
  drivers = none ∷ some 7 ∷ [];
}

abbrev net : Net
net = record { devs = λ i. device; modules = λ m. 0 }

abbrev find : ℕ → Option ℕ
find name = some name

acquire_netdev-Holds_example :
    let (t, r) = acquire_netdev find (λ m. true) net 3 in Holds find (λ m. true) net 3 t r
acquire_netdev-Holds_example = acquire_netdev-Holds find (λ m. true) net 3

acquired : (acquire_netdev find (λ m. true) net 3).1 ≡ got 3
unfolding acquire_netdev is_capable dev_driver
acquired = refl

abbrev unhooked : NetDev
unhooked = record device { hook = 0 }

-- Eight slots, of which five are counted from index 6 on.
abbrev kring : Kring
kring = record (no_rx_ring.kring) { nkr_num_slots = 8; nr_hwcur = 6; nr_hwavail = 5 }

irq_wakes :
    (rx_irq device 0).1
    ≡ lock_queue 0 ∷ wake_ring 0 ∷ unlock_queue 0 ∷ lock_core ∷ wake_main ∷ unlock_core ∷ []
unfolding rx_irq
irq_wakes = refl
