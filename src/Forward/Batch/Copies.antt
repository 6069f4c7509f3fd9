-- ===== src/Forward/Batch/Copies.antt =====
-- What a batch of duplicator/duplicator.c leaves in each copy, against a bounded queue: the packets
-- for which there is room are appended in order, the others are counted as dropped.
use dpa.Prelude.{
  ℕ, zero, suc, ◌+◌, ◌-◌, ◌≤◌, ◌<◌, ◌≡◌, List, [], ◌∷◌, ◌++◌, arith, take, drop, length,
  append_assoc, append-nil, refl, ap, sym, ◌∙◌, length-append, lt→ltb, le→ltb_false,
}
use dpa.Prelude.Word.{u64}
use dpa.Window.{length-window}
use dpa.Queue.{write_adv}
use dpa.Forward.{DupSlot, Copy, put, refresh, drop as drop_packet, store, publish_full, publish}
use dpa.Forward.Put.{IsOpen, filled, pending}
use dpa.Forward.Room.{drops, count_drop}
use dpa.Forward.Refine.{put-refines}

-- The packets of a batch into one copy, in order.
unfoldable pub put_all : Copy → List DupSlot → Copy
put_all c [] = c
put_all c (x ∷ xs) = put_all (put c x) xs

-- The slots that are still free, one being kept apart.
abbrev pub room : Copy → ℕ
room c = c.queue.num_slots - 1 - filled c

abbrev pub sum_len : List DupSlot → ℕ
sum_len [] = 0
sum_len (x ∷ xs) = x.len + sum_len xs

-- The copy `d` holds the first `r` of the packets after what `c` held, and has counted the others.
abbrev Delivered : ℕ → Copy → Copy → List DupSlot → Type 0
Delivered r c d xs =
    (pending d ≡ pending c ++ take r xs)
    × (u64 d.queue.drop_packets ≡ u64 (c.queue.drop_packets + length (drop r xs)))
    × (u64 d.queue.drop_bytes ≡ u64 (c.queue.drop_bytes + sum_len (drop r xs)))

num_slots-put : (c : Copy) (x : DupSlot) → (put c x).queue.num_slots ≡ c.queue.num_slots
unfolding put refresh drop_packet store publish_full publish write_adv
num_slots-put c x = ground arith

filled-pending : (c : Copy) → length (pending c) ≡ filled c
filled-pending c = length-window c.slots c.queue.num_slots c.queue.ridx (filled c)

put_with_room :
    (c : Copy) (x : DupSlot)
    → IsOpen c
    → filled c + 1 < c.queue.num_slots
    → (pending (put c x) ≡ pending c ++ x ∷ [])
      × (drops (put c x) ≡ drops c)
      × (room c ≡ suc (room (put c x)))
put_with_room c x o h =
    let (o', grown, same) = put-refines c x o in
    let g : pending (put c x) ≡ pending c ++ x ∷ [] = rw (lt→ltb _ _ h) at grown in
    (
      g,
      rw (lt→ltb _ _ h) at same,
      omega (
        arith,
        ap length g,
        length-append (pending c) (x ∷ []),
        filled-pending c,
        filled-pending (put c x),
        num_slots-put c x,
      ),
    )

put_without_room :
    (c : Copy) (x : DupSlot)
    → IsOpen c
    → c.queue.num_slots ≤ filled c + 1
    → (pending (put c x) ≡ pending c)
      × (drops (put c x) ≡ count_drop (drops c) x.len)
      × (room (put c x) ≡ 0)
put_without_room c x o h =
    let (o', grown, same) = put-refines c x o in
    let g : pending (put c x) ≡ pending c = rw (le→ltb_false _ _ h) at grown in
    (
      g,
      rw (le→ltb_false _ _ h) at same,
      omega (arith, ap length g, filled-pending c, filled-pending (put c x), num_slots-put c x),
    )

put_all-IsOpen : (c : Copy) (xs : List DupSlot) → IsOpen c → IsOpen (put_all c xs)
unfolding put_all
put_all-IsOpen c [] o = o
put_all-IsOpen c (x ∷ xs) o = put_all-IsOpen (put c x) xs (put-refines c x o).0

Delivered-none : (r : ℕ) (c : Copy) → Delivered r c c []
Delivered-none zero c = (sym (append-nil _), omega arith, omega arith)
Delivered-none (suc r) c = (sym (append-nil _), omega arith, omega arith)

put_all-delivers_at :
    (xs : List DupSlot) (r : ℕ) (c : Copy) → room c ≡ r → IsOpen c → Delivered r c (put_all c xs) xs
unfolding put_all
put_all-delivers_at [] r c e o = Delivered-none r c
put_all-delivers_at (x ∷ xs) zero c e o =
    let (same, counted, still) = put_without_room c x o (omega (arith, e)) in
    let (all, packets, lens) = put_all-delivers_at xs zero (put c x) still (put-refines c x o).0 in
    (
      all ∙ ap (λ t. t ++ []) same,
      omega (arith, packets, ap (λ (t : ℕ × ℕ). t.0) counted),
      omega (arith, lens, ap (λ (t : ℕ × ℕ). t.1) counted),
    )
put_all-delivers_at (x ∷ xs) (suc r) c e o =
    let (grown, same, less) = put_with_room c x o (omega (arith, e)) in
    let (all, packets, lens) =
      put_all-delivers_at xs r (put c x) (omega (arith, less, e)) (put-refines c x o).0 in
    (
      all ∙ ap (λ t. t ++ take r xs) grown ∙ append_assoc (pending c) (x ∷ []) (take r xs),
      omega (arith, packets, ap (λ (t : ℕ × ℕ). t.0) same),
      omega (arith, lens, ap (λ (t : ℕ × ℕ). t.1) same),
    )

-- Packets offered in order to an open copy: those for which there is room are appended to what is
-- pending, in order; the number of the others, and of their bytes, is added to the drop counters
-- modulo 2 ^ 64; and the copy stays open.
pub put_all-delivers :
    (c : Copy) (xs : List DupSlot)
    → IsOpen c
    → IsOpen (put_all c xs)
      × (pending (put_all c xs) ≡ pending c ++ take (room c) xs)
      × (u64 (put_all c xs).queue.drop_packets
          ≡ u64 (c.queue.drop_packets + length (drop (room c) xs)))
      × (u64 (put_all c xs).queue.drop_bytes
          ≡ u64 (c.queue.drop_bytes + sum_len (drop (room c) xs)))
put_all-delivers c xs o =
    let (all, packets, lens) = put_all-delivers_at xs (room c) c refl o in
    (put_all-IsOpen c xs o, all, packets, lens)
