-- ===== src/Sync/Turn.antt =====
-- igb_dpa_rx_sync (drivers/igb-3.0.6/igb_dpa.h) from end to end.
use dpa.Prelude.{
  ℕ, ◌+◌, ◌-◌, ◌%◌, ◌≤◌, ◌<◌, ◌≡◌, Bool, true, false, not, ◌||◌, some, ap, ◌∙◌, arith, ◌==◌, leb,
  bit_and, if_true, if_false,
}
use native.Mathlib.Nat.{mod-lt}
use dpa.Prelude.Word.{u64, sub32}
use dpa.Ring.Index.{idx_n2k-eq}
use dpa.Ring.{idx_n2k}
use dpa.Sync.{
  Env, Rx, Harvest, harvest, enter_harvest, clear_pending, receive, harvested, then_release,
  rx_sync,
}
use dpa.Sync.Harvested.{IsRun, harvest-run}
use dpa.Sync.Counts.{IsSound, release_end, released, Received, entered, release_slots-counts}

receive-Received :
    (env : Env) (s : Rx) (m : ℕ)
    → IsSound env s
    → IsRun s.nic.desc s.kring.nkr_num_slots s.nic.next_to_clean m
    → s.kring.nr_hwavail + m < s.kring.nkr_num_slots
    → (s' : Rx) × (receive s ≡ some s') × Received env m s s'
unfolding receive
receive-Received env s m o run small =
    let mapped = o.mapped in
    let start : Harvest = record {
      slot = s.kring.ring.slot;
      k = idx_n2k s.kring s.nic.next_to_clean;
      n = s.nic.next_to_clean;
      count = 0;
      total = 0;
    } in
    let last : sub32 s.kring.nkr_num_slots 1 ≡ s.kring.nkr_num_slots - 1 =
      omega (arith, mapped.some_slots, mapped.small) in
    let (h, e, hs) =
      harvest-run s.nic.desc s.kring.nkr_num_slots mapped.small m (s.kring.nkr_num_slots + 1) start
        o.clean_in
        (rw (idx_n2k-eq s.nic.next_to_clean mapped o.clean_in) (mod-lt _ mapped.some_slots))
        (omega arith) (omega arith) (omega (arith, small)) run in
    (
      clear_pending (enter_harvest s h),
      ap (harvested s) (ap (λ l. harvest (s.kring.nkr_num_slots + 1) s.nic.desc l start) last ∙ e),
      entered env s o m h (omega (arith, small, mapped.small))
          (hs.count_eq ∙ omega (arith, small, mapped.small)) hs.n_eq hs.bufs_eq,
    )

-- igb_dpa_rx_sync, on a card with a carrier and when it looks at the card, on a ring whose indices
-- are in range, whose process reserved no more than fits, and whose slots all have buffers: if m
-- descriptors are finished, and the process has released no more than was counted, it ends and
-- returns 0; `nr_hwcur` is `cur` less what is reserved, `nr_hwavail` grew by m less what was
-- released, `avail` is that less what is reserved, and the card's index and the packet counter
-- moved on by m.
pub rx_sync-counts :
    (env : Env) (lock : Bool) (s : Rx) (m : ℕ)
    → env.carrier_ok ≡ true
    → (not env.pend_intr || (lock || not (bit_and s.kring.nr_kflags 1 == 0))) ≡ true
    → IsSound env s
    → IsRun s.nic.desc s.kring.nkr_num_slots s.nic.next_to_clean m
    → s.kring.nr_hwavail + m < s.kring.nkr_num_slots
    → released s + s.kring.ring.reserved ≤ s.kring.nr_hwavail + m
    → (s' : Rx) × (rx_sync env lock s ≡ some (s', 0))
      × (s'.kring.nr_hwcur ≡ release_end s)
      × (s'.kring.nr_hwavail + released s ≡ s.kring.nr_hwavail + m)
      × (s'.kring.ring.avail + s'.kring.ring.reserved ≡ s'.kring.nr_hwavail)
      × (s'.kring.ring.reserved ≡ s.kring.ring.reserved)
      × (s'.nic.next_to_clean ≡ (s.nic.next_to_clean + m) % s.kring.nkr_num_slots)
      × (u64 s'.kring.total_packets ≡ u64 (s.kring.total_packets + m))
unfolding rx_sync
rx_sync-counts env lock s m carrier looks o run small few =
    let (s1, e, r) = receive-Received env s m o run small in
    let (s', done, hwcur, hwavail, avail, reserved, clean, packets) =
      release_slots-counts env s1 r.sound
        (omega (arith, few, r.same_released, r.same_reserved, r.counted))
        (omega (arith, small, r.counted, r.same_size)) in
    let inside : leb s.kring.nkr_num_slots s.kring.ring.cur ≡ false = ground (arith, o.cur_in) in
    (
      s',
      if_false _ _ _ (ap not carrier)
          ∙ if_false _ _ _ inside
          ∙ if_true _ _ _ looks
          ∙ ap (then_release env) e
          ∙ done,
      hwcur ∙ r.same_end,
      omega (arith, hwavail, r.same_released, r.counted),
      omega (arith, avail, reserved),
      reserved ∙ r.same_reserved,
      clean ∙ r.clean,
      ap u64 packets ∙ r.packets,
    )
