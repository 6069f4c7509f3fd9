-- ===== src/Forward/Put.antt =====
-- The parts of one packet's way into one output queue of duplicator/duplicator.c: the invariant
-- between packets, a store, and a publication.
use native.Mathlib.Nat.{mod-lt, mod-eq_of_lt, add-zero}
use dpa.Prelude.{
  ℕ, suc, ◌+◌, ◌%◌, ◌≤◌, ◌<◌, ◌≡◌, ◌⊎◌, List, [], ◌∷◌, ◌++◌, arith, ap, sym, subst, ◌∙◌, refl,
}
use dpa.Prelude.Mod.{advance_twice}
use dpa.Window.{window, window-store}
use dpa.Queue.{DupQueue, IsReady, used, write_adv, widx_offset}
use dpa.Queue.Counts.{
  used-lt, write_avali-eq, slot_idx_next-eq, write_adv-eq, write_adv-IsReady, used-write_adv,
  num_slots-write_adv,
}
use dpa.Queue.Offset.{advance-widx_offset, widx_offset_of, advance-used}
use dpa.Forward.{DupSlot, Copy, store, publish}

-- Slots filled past the queue's write index, and slots filled in all.
abbrev pub unpublished : Copy → ℕ
unpublished c = widx_offset c.queue c.widx

abbrev pub filled : Copy → ℕ
filled c = used c.queue + unpublished c

-- The packets that wait in the queue, published or not, oldest first.
abbrev pub pending : Copy → List DupSlot
pending c = window c.slots c.queue.num_slots c.queue.ridx (filled c)

-- The cached count of free slots is not more than are free, and not less than are filled ahead.
pub record IsCounted (c : Copy) : Type 0 where
  pub ready : IsReady c.queue
  pub widx_in : c.widx < c.queue.num_slots
  pub room : c.wavali + used c.queue < c.queue.num_slots
  pub behind : unpublished c ≤ c.wavali

-- Between two packets, moreover, what is counted free is not all filled.
pub record IsOpen (c : Copy) : Type 0 where
  pub counted : IsCounted c
  pub fresh : (c.wavali ≡ 0) ⊎ (unpublished c < c.wavali)

-- A store extends what is pending by the packet.
pub store-counts :
    (c : Copy) (x : DupSlot)
    → IsReady c.queue
    → c.widx < c.queue.num_slots
    → filled c + 1 < c.queue.num_slots
    → (unpublished (store c x) ≡ unpublished c + 1)
      × ((store c x).widx < c.queue.num_slots)
      × (pending (store c x) ≡ pending c ++ x ∷ [])
store-counts c x r w h = (offset, (rw next (mod-lt _ (omega arith))), grown)
  where
    next : (store c x).widx ≡ (c.widx + 1) % c.queue.num_slots
    next = unfold store in slot_idx_next-eq r c.widx w

    here : (store c x).widx ≡ (c.queue.widx + (unpublished c + 1)) % c.queue.num_slots
    here =
        next
        ∙ ap (λ t. (t + 1) % c.queue.num_slots) (sym (advance-widx_offset r c.widx w))
        ∙ advance_twice c.queue.widx (unpublished c) 1 c.queue.num_slots

    offset : unpublished (store c x) ≡ unpublished c + 1
    offset = unfold store in widx_offset_of r _ (unpublished c + 1) (omega arith) here

    place : c.widx ≡ (c.queue.ridx + filled c) % c.queue.num_slots
    place =
        sym (advance-widx_offset r c.widx w)
        ∙ ap (λ t. (t + unpublished c) % c.queue.num_slots) (sym (advance-used r))
        ∙ advance_twice c.queue.ridx (used c.queue) (unpublished c) c.queue.num_slots

    same : used (store c x).queue ≡ used c.queue
    same = unfold store in refl

    count : filled (store c x) ≡ suc (filled c)
    count = omega (arith, offset, same)

    grown : pending (store c x) ≡ pending c ++ x ∷ []
    grown =
        ap (window (store c x).slots (store c x).queue.num_slots (store c x).queue.ridx) count
        ∙ unfold store in
          window-store c.slots _ c.queue.ridx (filled c) c.widx x r.ridx_in (omega arith) place

abbrev pub advanced : Copy → DupQueue
advanced c = write_adv c.queue (unpublished c)

-- Advancing the write index over what is filled leaves nothing unpublished and keeps what is used
-- and unpublished together.
module _ (c : Copy) (r : IsReady c.queue) (w : c.widx < c.queue.num_slots)
    (h : filled c < c.queue.num_slots) where
  pub advanced-IsReady : IsReady (advanced c)
  advanced-IsReady = write_adv-IsReady r (unpublished c) (omega arith)

  pub used-advanced : used (advanced c) ≡ filled c
  used-advanced = used-write_adv r (unpublished c) h

  pub num_slots-advanced : (advanced c).num_slots ≡ c.queue.num_slots
  num_slots-advanced = num_slots-write_adv c.queue (unpublished c)

  widx-advanced : (advanced c).widx ≡ c.widx
  widx-advanced =
      ap (λ (q : DupQueue). q.widx) (write_adv-eq r (unpublished c) (omega arith))
      ∙ advance-widx_offset r c.widx w

  pub widx_offset-advanced : widx_offset (advanced c) c.widx ≡ 0
  widx_offset-advanced =
      widx_offset_of advanced-IsReady c.widx 0 (omega (arith, num_slots-advanced))
        (rw (num_slots-advanced, widx-advanced, add-zero, mod-eq_of_lt w))

publish-counts_here :
    (c : Copy)
    → IsReady c.queue
    → c.widx < c.queue.num_slots
    → filled c < c.queue.num_slots
    → let c' = publish c (unpublished c) in
      IsCounted c' × (unpublished c' ≡ 0) × (pending c' ≡ pending c)
unfolding publish
publish-counts_here c r w h = (
  record {
    ready = advanced-IsReady c r w h;
    widx_in = omega (arith, num_slots-advanced c r w h);
    room =
        omega
          (arith, write_avali-eq (advanced-IsReady c r w h), used-lt (advanced-IsReady c r w h));
    behind = omega (arith, widx_offset-advanced c r w h);
  },
  widx_offset-advanced c r w h,
  unfold write_adv in
      ap (window c.slots c.queue.num_slots c.queue.ridx)
        (omega (arith, used-advanced c r w h, widx_offset-advanced c r w h)),
)

-- Publishing what is filled leaves nothing unpublished, changes nothing of what is pending, and
-- counts the free slots anew.
pub publish-counts :
    (c : Copy) (n : ℕ)
    → IsReady c.queue
    → c.widx < c.queue.num_slots
    → filled c < c.queue.num_slots
    → unpublished c ≡ n
    → let c' = publish c n in IsCounted c' × (unpublished c' ≡ 0) × (pending c' ≡ pending c)
publish-counts c n r w h e =
    subst
      (λ t.
        IsCounted (publish c t)
        × (unpublished (publish c t) ≡ 0)
        × (pending (publish c t) ≡ pending c))
      e (publish-counts_here c r w h)
