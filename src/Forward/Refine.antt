-- ===== src/Forward/Refine.antt =====
-- One packet into one output queue of duplicator/duplicator.c, against a bounded queue of packets,
-- and the publication at the end of a batch.
use dpa.Prelude.{
  ◌+◌, ◌≡◌, ◌≢◌, inl, inr, [], ◌∷◌, ◌++◌, if◌then◌else◌, ltb, arith, ap, sym, subst, length, ◌∙◌,
  refl, ==_iff, ne→==_false, lt→ltb, le→ltb_false,
}
use native.Mathlib.Decide.{ℕ_discrete}
use dpa.Window.{length-window}
use dpa.Queue.{write_avali, widx_offset, read_avali}
use dpa.Queue.Counts.{used-lt, write_avali-eq, read_avali-eq-used}
use dpa.Forward.{DupSlot, Copy, refresh, drop, publish, put, flush}
use dpa.Forward.Put.{unpublished, filled, pending, IsOpen, publish-counts}
use dpa.Forward.Room.{
  fresh_of_zero, accept, refresh-room, pending-drop, pending-refresh, drops-refresh, drop-IsCounted,
  drops-publish, drops, count_drop,
}

-- One packet into one copy that is open, that is: its queue is ready, the room that is cached is 0 or
-- more than what is filled and unpublished and no more than what there is, and the consumer rests
-- during the packet. While not all slots but one are filled the packet is appended to what is pending
-- and nothing is counted; else what is pending stays and the packet and its bytes are counted as
-- dropped. The copy stays open either way.
pub put-refines :
    (c : Copy) (x : DupSlot)
    → IsOpen c
    → IsOpen (put c x)
      × (pending (put c x)
          ≡ (if ltb (filled c + 1) c.queue.num_slots then pending c ++ x ∷ [] else pending c))
      × (drops (put c x)
          ≡ (if ltb (filled c + 1) c.queue.num_slots then drops c else count_drop (drops c) x.len))
unfolding put
put-refines c x o =
    let (k, look) = refresh-room c o in
    elim look [
      | inl (z, full) ↦
          rw (le→ltb_false _ _ full, (==_iff _ 0).1 z)
            (
              record { counted = drop-IsCounted _ x k; fresh = inl (unfold drop in z) },
              pending-drop (refresh c) x ∙ pending-refresh c,
              unfold drop refresh in refl,
            )
      | inr (some_room, room) ↦
          let (o', grown, same) =
            accept (refresh c) x k (unfold refresh in unfold refresh in some_room) in
          rw (lt→ltb _ _ room, ne→==_false (refresh c).wavali 0 (omega (arith, some_room)))
            (o', grown ∙ ap (λ t. t ++ x ∷ []) (pending-refresh c), same ∙ drops-refresh c)
    ]

flush_idle :
    (c : Copy)
    → widx_offset c.queue c.widx ≡ 0
    → flush c ≡ record c { wavali = write_avali c.queue }
unfolding flush
flush_idle c e = rw e

flush_busy : (c : Copy) → widx_offset c.queue c.widx ≢ 0 → flush c ≡ publish c (unpublished c)
unfolding flush publish
flush_busy c h = rw (ne→==_false (widx_offset c.queue c.widx) 0 h)

filled_of_pending : (c d : Copy) → pending c ≡ pending d → filled c ≡ filled d
filled_of_pending c d e =
    sym (length-window c.slots c.queue.num_slots c.queue.ridx (filled c))
    ∙ ap length e
    ∙ length-window d.slots d.queue.num_slots d.queue.ridx (filled d)

Published : Copy → Copy → Type 0
Published c d =
    IsOpen d × (pending d ≡ pending c) × (drops d ≡ drops c) × (read_avali d.queue ≡ filled c)

idle-Published :
    (c : Copy)
    → IsOpen c
    → unpublished c ≡ 0
    → Published c (record c { wavali = write_avali c.queue })
unfolding Published
idle-Published c o e =
    let k = o.counted in
    let w = write_avali-eq k.ready in
    let lt = used-lt k.ready in
    (
      record {
        counted = record {
          ready = k.ready;
          widx_in = k.widx_in;
          room = omega arith;
          behind = omega arith;
        };
        fresh = fresh_of_zero _ _ e;
      },
      refl,
      refl,
      omega (arith, read_avali-eq-used k.ready),
    )

busy-Published : (c : Copy) → IsOpen c → Published c (publish c (unpublished c))
unfolding Published
busy-Published c o =
    let k = o.counted in
    let (k', none_left, same) =
      publish-counts c _ k.ready k.widx_in (omega (arith, k.room, k.behind)) refl in
    (
      record { counted = k'; fresh = fresh_of_zero _ _ none_left },
      same,
      drops-publish c _,
      omega (
        arith,
        read_avali-eq-used k'.ready,
        none_left,
        filled_of_pending (publish c (unpublished c)) c same,
      ),
    )

-- The end of a batch publishes everything: it leaves nothing unpublished, keeps what is pending and
-- the counters, and a reader then finds as many packets as are pending.
pub flush-publishes :
    (c : Copy)
    → IsOpen c
    → IsOpen (flush c)
      × (pending (flush c) ≡ pending c)
      × (drops (flush c) ≡ drops c)
      × (read_avali (flush c).queue ≡ filled c)
unfolding Published
flush-publishes c o = elim (ℕ_discrete (unpublished c) 0) [
  | yes e ↦ subst (Published c) (sym (flush_idle c e)) (idle-Published c o e)
  | no h ↦ subst (Published c) (sym (flush_busy c h)) (busy-Published c o)
]
