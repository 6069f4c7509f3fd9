-- ===== src/Memory/Built.antt =====
-- The rings that the loop of dpa_new_if (kernel/dpa_mem.c) builds.
use dpa.Prelude.{
  ℕ, zero, suc, ◌+◌, ◌≤◌, ◌<◌, ◌≡◌, ◌≢◌, List, Bool, true, false, Option, none, some, if◌then◌else◌,
  ◌==◌, Bool-cases, inl, inr, ==_false→ne, get_or, set, length, arith, refl, sym, ◌∙◌, subst,
  length-set, get_or-set_self, get_or-set_ne,
}
use native.Mathlib.Decide.{ℕ_discrete}
use dpa.Prelude.Word.{u16}
use dpa.Ring.{DpaSlot}
use dpa.Netdev.{DpaAdapter, RxRing, no_rx_ring}
use dpa.Pool.{ObjPool, obj_malloc, NewBufs, new_bufs}
use dpa.Memory.{
  MemAllocator, Rings, next_ring, ring_size, ring_at, with_bufs, with_ring, rings_from,
}

-- What an interface registers with: not its rings, and not its count of users.
pub record SameAdapter (d e : DpaAdapter) : Type 0 where
  pub magic : d.magic ≡ e.magic
  pub excl_locks : d.excl_locks ≡ e.excl_locks
  pub dev_model : d.dev_model ≡ e.dev_model
  pub num_rx_rings : d.num_rx_rings ≡ e.num_rx_rings
  pub num_rx_descs : d.num_rx_descs ≡ e.num_rx_descs

module _ (buf_size : ℕ) (old : ℕ → List DpaSlot) where
  -- A ring as dpa_new_if leaves it for `ndesc` slots: it has an object, and is empty.
  pub record IsFresh (ndesc : ℕ) (r : RxRing) : Type 0 where
    pub has_addr : r.addr ≢ 0
    pub slots : r.kring.ring.num_slots ≡ ndesc
    pub kslots : r.kring.nkr_num_slots ≡ ndesc
    pub empty : (r.kring.ring.avail ≡ 0) × (r.kring.ring.reserved ≡ 0) × (r.kring.nr_hwavail ≡ 0)
    pub first : (r.kring.ring.cur ≡ 0) × (r.kring.nr_hwcur ≡ 0) × (r.kring.nkr_hwofs ≡ 0)
    pub size : r.kring.ring.buf_size ≡ u16 buf_size

  -- The rings from i on are fresh.
  abbrev pub AllFresh : ℕ → ℕ → ℕ → List RxRing → Type 0
  AllFresh ndesc i n rings = (j : ℕ) → i ≤ j → j < i + n → IsFresh ndesc (get_or rings j no_rx_ring)

  abbrev pub Built : ℕ → ℕ → ℕ → List RxRing → Option Rings → Type 0
  Built ndesc i n rings none = Unit {0}
  Built ndesc i n rings (some r) =
      (length r.rings ≡ length rings)
      × ((j : ℕ) → j < i → get_or r.rings j no_rx_ring ≡ get_or rings j no_rx_ring)
      × (r.is_ok ≡ true → AllFresh ndesc i n r.rings)

  -- One turn of the loop.
  with_bufs-Built :
      (a : MemAllocator) (rings : List RxRing) (i ndesc addr : ℕ) (b : Option NewBufs)
      → addr ≢ 0
      → i < length rings
      → Built ndesc i 1 rings (with_bufs buf_size old a rings i ndesc addr b)
  unfolding with_bufs ring_at
  with_bufs-Built a rings i ndesc addr none h lt = tt
  with_bufs-Built a rings i ndesc addr (some b) h lt = (
    length-set rings i _,
    (λ j lj. get_or-set_ne rings i j _ no_rx_ring (grind arith)),
    (λ ok j lo hi.
        subst
          (λ k.
            IsFresh ndesc
              (get_or (set rings i (ring_at a buf_size ndesc addr b.slots)) k no_rx_ring))
          (omega arith)
          (subst (IsFresh ndesc) (sym (get_or-set_self rings i _ no_rx_ring lt)) (record {
            has_addr = h;
            slots = refl;
            kslots = refl;
            empty = (refl, refl, refl);
            first = (refl, refl, refl);
            size = refl;
          }))),
  )

  with_ring-Built :
      (a : MemAllocator) (rings : List RxRing) (i ndesc : ℕ) (got : Option (ObjPool × ℕ))
      → i < length rings
      → Built ndesc i 1 rings (with_ring buf_size old a rings i ndesc got)
  unfolding with_ring
  with_ring-Built a rings i ndesc none lt = tt
  with_ring-Built a rings i ndesc (some (p, addr)) lt = elim (Bool-cases (addr == 0)) [
    | inl none_left ↦
        subst (λ b. Built ndesc i 1 rings (tried a rings i ndesc p addr b)) (sym none_left)
          (
            length-set rings i _,
            (λ j lj. get_or-set_ne rings i j _ no_rx_ring (grind arith)),
            (λ ok. cc),
          )
    | inr some_left ↦
        subst (λ b. Built ndesc i 1 rings (tried a rings i ndesc p addr b)) (sym some_left)
          (with_bufs-Built (record a { ring_pool = p }) rings i ndesc addr _
            (==_false→ne _ _ some_left) lt)
  ]
    where
      tried : MemAllocator → List RxRing → ℕ → ℕ → ObjPool → ℕ → Bool → Option Rings
      tried a rings i ndesc p addr b =
          let a' = record a { ring_pool = p } in
          if b
          then some
              (record { pools = a'; rings = set rings i no_rx_ring; is_ok = false; stopped = i })
          else with_bufs buf_size old a' rings i ndesc addr
              (new_bufs buf_size a'.buf_pool (old addr) ndesc)

  -- Rings that were fresh before the rest of the loop, and those that the rest builds.
  rest-Built :
      (ndesc n i : ℕ) (rings : List RxRing) (r : Rings) (t : Option Rings)
      → Built ndesc i 1 rings (some r)
      → r.is_ok ≡ true
      → Built ndesc (i + 1) n r.rings t
      → Built ndesc i (suc n) rings t
  rest-Built ndesc n i rings r none b ok c = tt
  rest-Built ndesc n i rings r (some t) b ok c = (
    c.0 ∙ b.0,
    (λ j lj. c.1 j (omega arith) ∙ b.1 j lj),
    (λ done j lo hi. elim (ℕ_discrete j i) [
      | yes e ↦ subst (IsFresh ndesc) (sym (c.1 j (omega arith))) (b.2 ok j lo (omega arith))
      | no e ↦ c.2 done j (grind arith) (omega arith)
    ]),
  )

  failed-Built :
      (ndesc n i : ℕ) (rings : List RxRing) (r : Rings)
      → Built ndesc i 1 rings (some r)
      → r.is_ok ≡ false
      → Built ndesc i n rings (some r)
  failed-Built ndesc n i rings r b bad = (b.0, b.1, (λ ok. cc))

  turn-Built :
      (ndesc n i : ℕ) (rings : List RxRing) (again : Rings → Option Rings) (t : Option Rings)
      → ((r : Rings) → length r.rings ≡ length rings → Built ndesc (i + 1) n r.rings (again r))
      → Built ndesc i 1 rings t
      → Built ndesc i (suc n) rings (next_ring buf_size old again t)
  turn-Built ndesc n i rings again none more b = tt
  turn-Built ndesc n i rings again (some r) more b = elim (Bool-cases r.is_ok) [
    | inl ok ↦
        subst (λ c. Built ndesc i (suc n) rings (if c then again r else some r)) (sym ok)
          (rest-Built ndesc n i rings r (again r) b ok (more r b.0))
    | inr bad ↦
        subst (λ c. Built ndesc i (suc n) rings (if c then again r else some r)) (sym bad)
          (failed-Built ndesc (suc n) i rings r b bad)
  ]

  pub rings_from-Built :
      (ndesc n i : ℕ) (a : MemAllocator) (rings : List RxRing)
      → i + n ≤ length rings
      → Built ndesc i n rings (rings_from buf_size old ndesc n i a rings)
  unfolding rings_from
  rings_from-Built ndesc zero i a rings h =
      (refl, (λ j lj. refl), (λ ok j lo hi. absurd (omega arith)))
  rings_from-Built ndesc (suc n) i a rings h =
      turn-Built ndesc n i rings (λ r. rings_from buf_size old ndesc n (i + 1) r.pools r.rings) _
        (λ r e. rings_from-Built ndesc n (i + 1) r.pools r.rings (omega arith))
        (with_ring-Built a rings i ndesc (obj_malloc a.ring_pool (ring_size ndesc)) (omega arith))
