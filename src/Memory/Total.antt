-- ===== src/Memory/Total.antt =====
-- dpa_new_if (kernel/dpa_mem.c) comes to an end on sound pools.
use dpa.Prelude.{
  ℕ, zero, suc, ◌+◌, ◌≡◌, List, length, true, Option, some, ◌==◌, Bool-cases, inl, inr, sym, refl,
  sym, subst,
}
use dpa.Prelude.Word.{ltb_i32}
use dpa.Ring.{DpaSlot}
use dpa.Netdev.{DpaAdapter, RxRing}
use dpa.Pool.{obj_malloc}
use dpa.Pool.Take.{IsPool}
use dpa.Pool.Total.{obj_malloc_total, new_bufs_total}
use dpa.Memory.Share.{Shares, made-Shares}
use dpa.Memory.{
  MemAllocator, Rings, NewIf, next_ring, if_size, ring_size, with_bufs, with_ring, rings_from,
  with_rings, with_dif, new_if,
}

pub record IsSound (a : MemAllocator) : Type 0 where
  pub ifs : IsPool a.if_pool
  pub rings : IsPool a.ring_pool
  pub bufs : IsPool a.buf_pool

module _ (buf_size : ℕ) (old : ℕ → List DpaSlot) where
  abbrev Ends : Option Rings → Type 0
  Ends t = (r : Rings) × (t ≡ some r) × (r.is_ok ≡ true → IsSound r.pools)

  with_ring_total :
      (a : MemAllocator) (rings : List RxRing) (i ndesc : ℕ)
      → IsSound a
      → Ends (with_ring buf_size old a rings i ndesc (obj_malloc a.ring_pool (ring_size ndesc)))
  unfolding with_ring with_bufs
  with_ring_total a rings i ndesc w =
      let (g, result, sound) = obj_malloc_total a.ring_pool (ring_size ndesc) w.rings in
      let (b, filled, kept) = new_bufs_total buf_size ndesc a.buf_pool (old g.1) w.bufs in
      elim (Bool-cases (g.1 == 0)) [
        | inl none_left ↦ rw (result, none_left) (_, refl, (λ e. cc))
        | inr some_left ↦
            rw (result, some_left, filled)
              (_, refl, (λ e. record { ifs = w.ifs; rings = sound; bufs = kept e }))
      ]

  rings_from_total :
      (ndesc n i : ℕ) (a : MemAllocator) (rings : List RxRing)
      → IsSound a
      → Ends (rings_from buf_size old ndesc n i a rings)
  unfolding rings_from
  rings_from_total ndesc zero i a rings w = (_, refl, (λ e. w))
  rings_from_total ndesc (suc n) i a rings w =
      let (r, built, sound) = with_ring_total a rings i ndesc w in
      let again = λ (r : Rings). rings_from buf_size old ndesc n (i + 1) r.pools r.rings in
      subst (λ t. Ends (next_ring buf_size old again t)) (sym built)
        (elim (Bool-cases r.is_ok) [
          | inl ok ↦ rw ok (rings_from_total ndesc n (i + 1) r.pools r.rings (sound ok))
          | inr bad ↦ rw bad (r, refl, sound)
        ])

  new_if_total :
      (a : MemAllocator) (d : DpaAdapter)
      → IsSound a
      → (t : NewIf) × (new_if buf_size old a d ≡ some t)
  unfolding new_if with_dif with_rings
  new_if_total a d w =
      let (g, result, sound) = obj_malloc_total a.if_pool (if_size d.num_rx_rings) w.ifs in
      let a' : MemAllocator = record a { if_pool = g.0 } in
      let w' : IsSound a' = record { ifs = sound; rings = w.rings; bufs = w.bufs } in
      let (r, built, kept) = rings_from_total d.num_rx_descs d.num_rx_rings 0 a' d.rx_rings w' in
      elim (Bool-cases (g.1 == 0)) [
        | inl none_left ↦ rw (result, none_left) (_, refl)
        | inr some_left ↦ elim (Bool-cases (ltb_i32 0 d.refs)) [
          | inl shared ↦ rw (result, some_left, shared) (_, refl)
          | inr first ↦ elim (Bool-cases r.is_ok) [
            | inl ok ↦ rw (result, some_left, first, built, ok) (_, refl)
            | inr bad ↦ rw (result, some_left, first, built, bad) (_, refl)
          ]
        ]
      ]

  -- dpa_new_if on sound pools and an adapter with a ring for each of its queues comes to an end. NULL
  -- leaves the number of users, and an object makes it one more; the adapter keeps all else but its
  -- rings. For the first user each ring is then fresh: it has an object, is empty, and has the
  -- adapter's number of slots; for another user the rings and the pools of rings and of buffers are
  -- as they were.
  pub new_if-Shares :
      (a : MemAllocator) (d : DpaAdapter)
      → IsSound a
      → d.num_rx_rings ≡ length d.rx_rings
      → (t : NewIf) × (new_if buf_size old a d ≡ some t) × Shares buf_size old a d t
  new_if-Shares a d w e =
      let (t, result) = new_if_total a d w in (t, result, made-Shares buf_size old a d e result)
