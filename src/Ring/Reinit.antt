-- ===== src/Ring/Reinit.antt =====
-- kernel/dpa_main.c, dpa_ring_reinit: the slots of a ring that a process may have spoilt are put
-- right, and the ring is set back to the kernel's counters.
use dpa.Prelude.{
  ℕ, ◌+◌, ◌≤◌, ◌<◌, ◌≡◌, ◌⊎◌, inl, inr, List, [], ◌∷◌, Bool, true, false, not, ◌||◌, if◌then◌else◌,
  ltb, leb, ◌==◌, All, refl, ap₂, arith, Bool-cases, ==_iff, ltb_false→le,
}
use dpa.Ring.{DpaSlot, Kring}

module _ (total_buffers buf_size : ℕ) where
  -- `idx < 2 || idx >= dpa_total_buffers`
  unfoldable pub is_bad_idx : DpaSlot → Bool
  is_bad_idx s = ltb s.buf_idx 2 || leb total_buffers s.buf_idx

  unfoldable pub reinit_slot : DpaSlot → DpaSlot
  reinit_slot s =
      if is_bad_idx s
      then record s { buf_idx = 0; len = 0 }
      else if ltb buf_size s.len
      then record s { len = 0 }
      else s

  unfoldable pub slot_errors : DpaSlot → ℕ
  slot_errors s = if is_bad_idx s then 1 else if ltb buf_size s.len then 1 else 0

  -- The loop over the slots, and what it counts in `errors`.
  unfoldable pub reinit_slots : List DpaSlot → List DpaSlot
  reinit_slots [] = []
  reinit_slots (s ∷ ss) = reinit_slot s ∷ reinit_slots ss

  unfoldable pub errors : List DpaSlot → ℕ
  errors [] = 0
  errors (s ∷ ss) = slot_errors s + errors ss

  -- dpa_ring_reinit, with what it returns.
  unfoldable pub ring_reinit : Kring → Bool → Kring × ℕ
  ring_reinit kr force_sync =
      let ring = record (kr.ring) { slot = reinit_slots kr.ring.slot } in
      let bad = not (errors kr.ring.slot == 0) in
      let synced = record ring {
        cur = kr.nr_hwcur;
        avail = kr.nr_hwavail;
        hw_ofs = kr.nkr_hwofs;
      } in
      (record kr { ring = if bad || force_sync then synced else ring }, (if bad then 1 else 0))

  -- A slot that the card may be given or that is marked as unusable.
  pub IsSane : DpaSlot → Type 0
  IsSane s =
      (s.len ≤ buf_size)
      × (((2 ≤ s.buf_idx) × (s.buf_idx < total_buffers)) ⊎ ((s.buf_idx ≡ 0) × (s.len ≡ 0)))

  in_range : (s : DpaSlot) → is_bad_idx s ≡ false → (2 ≤ s.buf_idx) × (s.buf_idx < total_buffers)
  unfolding is_bad_idx
  in_range s e = ground (arith, e)

  reinit_slot-IsSane : (s : DpaSlot) → IsSane (reinit_slot s)
  unfolding reinit_slot IsSane
  reinit_slot-IsSane s = elim (Bool-cases (is_bad_idx s)) [
    | inl e ↦ rw e ((omega arith), inr (refl, refl))
    | inr e ↦ rw e (elim (Bool-cases (ltb buf_size s.len)) [
      | inl l ↦ rw l ((omega arith), inl (in_range s e))
      | inr l ↦ rw l (ltb_false→le _ _ l, inl (in_range s e))
    ])
  ]

  pub reinit_slots-IsSane : (ss : List DpaSlot) → All IsSane (reinit_slots ss)
  unfolding reinit_slots
  reinit_slots-IsSane [] = tt
  reinit_slots-IsSane (s ∷ ss) = (reinit_slot-IsSane s, reinit_slots-IsSane ss)

  slot_kept : (s : DpaSlot) → slot_errors s ≡ 0 → reinit_slot s ≡ s
  unfolding slot_errors reinit_slot
  slot_kept s none = elim (Bool-cases (is_bad_idx s)) [
    | inl e ↦ absurd (omega (arith, (rw e at none)))
    | inr e ↦ rw e (elim (Bool-cases (ltb buf_size s.len)) [
      | inl l ↦ absurd (omega (arith, (rw (e, l) at none)))
      | inr l ↦ rw l refl
    ])
  ]

  slots_kept : (ss : List DpaSlot) → errors ss ≡ 0 → reinit_slots ss ≡ ss
  unfolding errors reinit_slots
  slots_kept [] none = refl
  slots_kept (s ∷ ss) none =
      ap₂ ◌∷◌ (slot_kept s (omega (arith, none))) (slots_kept ss (omega (arith, none)))

  -- dpa_ring_reinit leaves only slots with a buffer that exists and a length that fits it, or with
  -- buffer 0 and length 0. Either it returns 0, and the slots are as they were; or it returns 1,
  -- and the ring's indices are the kernel's, as they also are when that is forced.
  pub ring_reinit-repairs :
      (kr : Kring) (force : Bool)
      → let (kr', r) = ring_reinit kr force in
        All IsSane kr'.ring.slot
        × (((r ≡ 0) × (kr'.ring.slot ≡ kr.ring.slot)) ⊎ (r ≡ 1))
        × (((r ≡ 1) ⊎ (force ≡ true))
            → (kr'.ring.cur ≡ kr.nr_hwcur)
              × (kr'.ring.avail ≡ kr.nr_hwavail)
              × (kr'.ring.hw_ofs ≡ kr.nkr_hwofs))
  unfolding ring_reinit
  ring_reinit-repairs kr force = elim (Bool-cases (errors kr.ring.slot == 0)) [
    | inl e ↦ rw e (elim (Bool-cases force) [
      | inl f ↦ rw f (
        reinit_slots-IsSane kr.ring.slot,
        inl (refl, slots_kept kr.ring.slot ((==_iff _ 0).0 e)),
        λ w. (refl, refl, refl),
      )
      | inr f ↦ rw f (
        reinit_slots-IsSane kr.ring.slot,
        inl (refl, slots_kept kr.ring.slot ((==_iff _ 0).0 e)),
        λ w. absurd (grind (arith, w)),
      )
    ])
    | inr e ↦ rw e (reinit_slots-IsSane kr.ring.slot, inr refl, λ w. (refl, refl, refl))
  ]
