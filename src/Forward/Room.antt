-- ===== src/Forward/Room.antt =====
-- The cases of one packet in duplicator/duplicator.c: a new look at the room, the packet accepted,
-- the packet dropped.
use dpa.Prelude.{
  ℕ, ◌+◌, ◌≤◌, ◌<◌, ◌≡◌, ◌⊎◌, inl, inr, [], ◌∷◌, ◌++◌, ◌==◌, arith, Bool-cases, ◌∙◌, refl, ==_iff,
  ==_false→ne,
}
use dpa.Prelude.Word.{u64}
use dpa.Queue.{used, write_adv, widx_offset}
use dpa.Queue.Counts.{used-lt, write_avali-eq}
use dpa.Forward.{DupSlot, Copy, refresh, drop, store, publish, publish_full}
use dpa.Forward.Put.{unpublished, filled, pending, IsCounted, IsOpen, store-counts, publish-counts}

pub fresh_of_zero : (u w : ℕ) → u ≡ 0 → (w ≡ 0) ⊎ (u < w)
fresh_of_zero u w e = grind arith

store-IsCounted :
    (c : Copy) (x : DupSlot)
    → IsCounted c
    → unpublished c < c.wavali
    → IsCounted (store c x)
      × (unpublished (store c x) ≡ unpublished c + 1)
      × (pending (store c x) ≡ pending c ++ x ∷ [])
store-IsCounted c x k h =
    let (offset, inside, grown) = store-counts c x k.ready k.widx_in (omega arith) in
    (
      record {
        ready = unfold store in k.ready;
        widx_in = unfold store in inside;
        room = unfold store in k.room;
        behind = rw offset (unfold store in omega arith);
      },
      offset,
      grown,
    )

-- The drop counters of a copy.
abbrev pub drops : Copy → ℕ × ℕ
drops c = (c.queue.drop_packets, c.queue.drop_bytes)

pub drops-publish : (c : Copy) (n : ℕ) → drops (publish c n) ≡ drops c
unfolding publish write_adv
drops-publish c n = refl

-- With room counted, the packet goes in and is published once the counted room is filled.
pub accept :
    (c : Copy) (x : DupSlot)
    → IsCounted c
    → unpublished c < c.wavali
    → let c' = publish_full (store c x) in
      IsOpen c' × (pending c' ≡ pending c ++ x ∷ []) × (drops c' ≡ drops c)
unfolding publish_full
accept c x k h =
    let (k', offset, grown) = store-IsCounted c x k h in
    elim (Bool-cases (unpublished (store c x) == (store c x).wavali)) [
      | inl full ↦
          let e : unpublished (store c x) ≡ (store c x).wavali = (==_iff _ _).0 full in
          let (k'', none_left, same) =
            publish-counts (store c x) _ k'.ready k'.widx_in (omega (arith, k'.room)) e in
          rw full (
            record { counted = k''; fresh = fresh_of_zero _ _ none_left },
            same ∙ grown,
            drops-publish (store c x) _ ∙ unfold store in refl,
          )
      | inr more ↦
          let apart = ==_false→ne _ _ more in
          rw more (
            record { counted = k'; fresh = inr (omega (arith, k'.behind)) },
            grown,
            unfold store in refl,
          )
    ]

-- A look at the room, where none was counted, finds it unless all slots but one are filled.
pub refresh-room :
    (c : Copy)
    → IsOpen c
    → IsCounted (refresh c)
      × (((refresh c).wavali ≡ 0) × (c.queue.num_slots ≤ filled c + 1)
          ⊎ (unpublished c < (refresh c).wavali) × (filled c + 1 < c.queue.num_slots))
unfolding refresh
refresh-room c o =
    let k = o.counted in
    let w = write_avali-eq k.ready in
    let lt = used-lt k.ready in
    (
      record {
        ready = k.ready;
        widx_in = k.widx_in;
        room = ground (arith, k.room);
        behind = ground (arith, k.behind);
      },
      elim (Bool-cases (c.wavali == 0)) [
        | inl e ↦ rw e (ground (arith, (==_iff c.wavali 0).0 e, k.behind))
        | inr e ↦ rw e (
            inr (
              omega (arith, ==_false→ne c.wavali 0 e, k.room, k.behind),
              omega (arith, ==_false→ne c.wavali 0 e, k.room),
            ))
      ],
    )

-- The counters after a packet of `len` bytes is dropped.
abbrev pub count_drop : ℕ × ℕ → ℕ → ℕ × ℕ
count_drop (packets, bytes) len = (u64 (packets + 1), u64 (bytes + len))

pub pending-drop : (c : Copy) (x : DupSlot) → pending (drop c x) ≡ pending c
unfolding drop used widx_offset
pending-drop c x = refl

pub pending-refresh : (c : Copy) → pending (refresh c) ≡ pending c
unfolding refresh
pending-refresh c = refl

pub drops-refresh : (c : Copy) → drops (refresh c) ≡ drops c
unfolding refresh
drops-refresh c = refl

pub drop-IsCounted : (c : Copy) (x : DupSlot) → IsCounted c → IsCounted (drop c x)
unfolding drop used widx_offset
drop-IsCounted c x k = record {
  ready = record {
    log = k.ready.log;
    size = k.ready.size;
    mask_eq = k.ready.mask_eq;
    small = k.ready.small;
    widx_in = k.ready.widx_in;
    ridx_in = k.ready.ridx_in;
  };
  widx_in = k.widx_in;
  room = k.room;
  behind = k.behind;
}
