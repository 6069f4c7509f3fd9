-- ===== src/Sync/Endless.antt =====
-- igb_dpa_rx_sync (drivers/igb-3.0.6/igb_dpa.h) where a process has written `reserved` so that its
-- sum with `avail` wraps around.
use dpa.Prelude.{
  ℕ, zero, suc, ◌-◌, ◌^◌, ◌≤◌, ◌<◌, ◌≡◌, ◌≢◌, List, none, refl, arith, get_or, ne→==_false,
}
use native.Mathlib.Nat.{mod-lt}
use dpa.Ring.{DpaSlot, no_slot}
use dpa.Ring.Index.{IsMapped}
use dpa.Sync.{Env, Rx, RxDesc, next_slot, buf_vpa, refill, checked_reserved, release_to}
use dpa.Sync.Harvested.{next_slot-eq}
use dpa.Sync.Released.{HasBuffers}

refill-past_end :
    (env : Env) (slot : List DpaSlot) (size u f : ℕ) (desc : List RxDesc) (k n i : ℕ)
    → size ≤ 2 ^ 30
    → HasBuffers env slot size
    → k < size
    → size ≤ u
    → refill env slot (size - 1) u f desc k n i ≡ none
unfolding refill
refill-past_end env slot size u zero desc k n i small bufs h past = refl
refill-past_end env slot size u (suc f) desc k n i small bufs h past =
    let apart : k ≢ u = λ e. absurd (omega (arith, e)) in
    let item = buf_vpa env (get_or slot k no_slot) in
    let inside : next_slot (size - 1) k < size =
      rw (next_slot-eq size k h small) (mod-lt _ (omega arith)) in
    rw (ne→==_false k u apart, ne→==_false item.vaddr env.buffer_base (bufs k h))
      (refill-past_end env slot size u f _ (next_slot (size - 1) k) _ _ small bufs inside past)

-- On a ring whose indices are in range and whose slots all have buffers, where `avail` is 1 to
-- 2 ^ 30 and the process has written 2 ^ 32 less that in `reserved`: the test lets `reserved`
-- pass, the target lies past the end of the ring, and the loop over the released slots does not
-- end, whatever fuel it is given.
pub refill-endless :
    (env : Env) (s : Rx)
    → IsMapped s.kring
    → HasBuffers env s.kring.ring.slot s.kring.nkr_num_slots
    → s.kring.nr_hwcur < s.kring.nkr_num_slots
    → s.kring.ring.cur < s.kring.nkr_num_slots
    → 1 ≤ s.kring.ring.avail
    → s.kring.ring.avail ≤ 2 ^ 30
    → s.kring.ring.reserved ≡ 2 ^ 32 - s.kring.ring.avail
    → let u = release_to s.kring (checked_reserved s.kring) in
      (checked_reserved s.kring ≡ s.kring.ring.reserved)
      × (s.kring.nkr_num_slots ≤ u)
      × ((f : ℕ) (desc : List RxDesc) (n i : ℕ)
          → refill env s.kring.ring.slot (s.kring.nkr_num_slots - 1) u f desc s.kring.nr_hwcur n i
            ≡ none)
refill-endless env s m bufs hwcur cur some_avail few written =
    let passes : checked_reserved s.kring ≡ s.kring.ring.reserved =
      unfold checked_reserved in ground (arith, m.small, m.some_slots) in
    let past : s.kring.nkr_num_slots ≤ release_to s.kring (checked_reserved s.kring) =
      rw passes (unfold release_to in ground (arith, m.small)) in
    (
      passes,
      past,
      λ f desc n i.
          refill-past_end env s.kring.ring.slot s.kring.nkr_num_slots _ f desc s.kring.nr_hwcur n i
            m.small bufs hwcur past,
    )
