-- ===== src/Registry/Tests.antt =====
-- Registrations (kernel/dpa_main.c) to an interface of two rings, with the igb driver.
use dpa.Prelude.{
  ℕ, ◌≡◌, ◌≢◌, ◌≤◌, ◌↔◌, List, [], ◌∷◌, Bool, true, false, Option, none, some, length, refl, arith,
  replicate, inl,
}
use dpa.Prelude.Word.{ltb_i32}
use dpa.Ring.{DpaSlot, no_slot}
use dpa.Netdev.{Errno, NetDev, no_rx_ring, is_deleting}
use dpa.Pool
use dpa.Pool.Samples.{five}
use dpa.Memory
use dpa.Memory.{MemAllocator}
use dpa.Session
use dpa.Registry.{
  FilePriv, KernelState, dev_of, Outcome, refused, registered, undo, reg_locked, wait_deleted,
}
use dpa.Registry.Igb.{igb_reg, igb_reg-Switches}
use dpa.Registry.Life.{World, join, Reach, here, next}
use dpa.Registry.Wait.{Deleting, wait_deleted-safe}
use dpa.Registry.Kept.{Inv, Reach-counts}

abbrev allocator : MemAllocator
allocator = record { total_size = 61440; if_pool = five; ring_pool = five; buf_pool = five }

abbrev one_slot : ℕ → List DpaSlot
one_slot addr = replicate 1 no_slot

abbrev device : NetDev
device = record {
  enabled = false;
  hook = 8192;
  adapter = record {
    magic = 0;
    refs = 0;
    excl_locks = false;
    dev_model = 1;
    num_rx_rings = 2;
    num_rx_descs = 1;
    rx_rings = no_rx_ring ∷ no_rx_ring ∷ [];
  };
  users = 1;
  drivers = some 7 ∷ [];
}

abbrev state : KernelState
state = record { net = record { devs = λ j. device; modules = λ m. 1 }; pools = allocator }

abbrev start : World
start = record { state = state; files = []; sleeping = [] }

abbrev up : Bool × Option Errno → Bool → NetDev → NetDev × Option Errno
up env = igb_reg (record { up = true; alter_promisc = env.0; promiscuity = env.1 })

start-Inv : Inv up igb_reg-Switches 2048 one_slot 0 start
start-Inv = record {
  hooked = λ z. omega (arith, z);
  rings = refl;
  small = omega arith;
  counted = refl;
  bounded = omega arith;
  phase = inl (refl, (λ z. refl), (λ z. absurd (z refl)));
}

abbrev outcome : Option Outcome
outcome = reg_locked up 2048 one_slot (false, none) state 0 4096

abbrev state_of : Option Outcome → KernelState
state_of none = state
state_of (some (refused e s)) = s
state_of (some (registered p s)) = s
state_of (some (undo e p s)) = s

abbrev no_priv : FilePriv
no_priv = record { dif = 0; dev = 0; range = record { ring_id = 0; rfirst = 0; rlast = 0 } }

abbrev priv_of : Option Outcome → FilePriv
priv_of none = no_priv
priv_of (some (refused e s)) = no_priv
priv_of (some (registered p s)) = p
priv_of (some (undo e p s)) = p

joined : outcome ≡ some (registered (priv_of outcome) (state_of outcome))
unfolding reg_locked Session.set_ring_id Memory.new_if Memory.rings_from Memory.with_ring
    Memory.with_bufs Memory.with_rings Memory.finish Pool.obj_malloc Pool.search Pool.grab
    Pool.grab_at Pool.find_bit Pool.with_addr Pool.new_bufs Pool.new_bufs_from ltb_i32 igb_reg
joined = refl

idle : is_deleting device ≡ false
unfolding is_deleting
idle = refl

start-Reach :
    Reach up 2048 one_slot 0 start
      (record start { state = state_of outcome; files = priv_of outcome ∷ [] })
start-Reach = next here (join (false, none) 4096 (priv_of outcome) (state_of outcome) idle joined)

abbrev one_user : World
one_user = record start { state = state_of outcome; files = priv_of outcome ∷ [] }

Reach-counts_example :
    ((dev_of one_user.state 0).adapter.refs ≡ length one_user.files)
    × (length one_user.files ≤ (dev_of one_user.state 0).adapter.num_rx_rings)
    × (length one_user.files ≢ 0 → (dev_of one_user.state 0).enabled ≡ true)
    × (length one_user.sleeping ≢ 0 → length one_user.files ≡ 0)
Reach-counts_example = Reach-counts up igb_reg-Switches 2048 one_slot 0 start-Inv start-Reach

wait_deleted-safe_example :
    let (t, had) = wait_deleted up 2048 one_slot 10 (λ k s. s) state 0 in
    (had ≡ true → is_deleting (dev_of t 0) ≡ false)
    × (had ≡ false ↔ Deleting up 2048 one_slot (λ k s. s) 0 10 state)
wait_deleted-safe_example = wait_deleted-safe up 2048 one_slot (λ k s. s) 0 10 state
