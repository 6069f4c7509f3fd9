-- ===== src/Memory/Clean.antt =====
-- The failure of dpa_new_if (kernel/dpa_mem.c) at its first ring.
use dpa.Pool.Bitmap.{is_free}
use dpa.Memory.Freed.{Points, Has, free_rings-frees}
use dpa.Prelude.{ℕ, suc, ◌≡◌, ◌≢◌, List, ◌∷◌, false, Option, some, ap, ◌∙◌, ne→==_false, refl}
use dpa.Prelude.Word.{ltb_i32}
use dpa.Ring.{DpaSlot}
use dpa.Netdev.{DpaAdapter, RxRing, no_rx_ring}
use dpa.Pool.{ObjPool, obj_malloc}
use dpa.Memory.{
  MemAllocator, NewIf, if_size, ring_size, free_rings, undo_bufs, clean_up, with_ring, rings_from,
  with_rings, with_dif, new_if,
}

new_if-cleans :
    (buf_size : ℕ) (old : ℕ → List DpaSlot) (a : MemAllocator) (d : DpaAdapter)
    (ifs rings : ObjPool) (dif n : ℕ) (r : RxRing) (rs : List RxRing)
    → obj_malloc a.if_pool (if_size d.num_rx_rings) ≡ some (ifs, dif)
    → dif ≢ 0
    → ltb_i32 0 d.refs ≡ false
    → d.num_rx_rings ≡ suc n
    → d.rx_rings ≡ r ∷ rs
    → obj_malloc a.ring_pool (ring_size d.num_rx_descs) ≡ some (rings, 0)
    → (t : NewIf) × (new_if buf_size old a d ≡ some t)
      × (t.dif ≡ 0)
      × (t.adapter ≡ record d { rx_rings = no_rx_ring ∷ rs })
      × (t.pools.ring_pool ≡ free_rings rings rs)
      × (t.pools.buf_pool ≡ a.buf_pool)
unfolding new_if with_dif with_rings rings_from with_ring clean_up undo_bufs free_rings
new_if-cleans buf_size old a d ifs rings dif n r rs got has first count shape full =
    rw (got, ne→==_false dif 0 has, first, count, shape, full) (_, refl, refl, refl, refl, refl)

-- For a first user, when no object is left for the first ring, dpa_new_if returns NULL, and every object
-- of the pool of rings to which one of the other rings still points, as it was left by an earlier user,
-- is free afterwards, whoever uses it by then; the pool of buffers and the pointers stay.
pub new_if-frees_stale :
    (buf_size : ℕ) (old : ℕ → List DpaSlot) (a : MemAllocator) (d : DpaAdapter)
    (ifs rings : ObjPool) (dif n : ℕ) (r : RxRing) (rs : List RxRing) (ks : List (Option ℕ)) (m : ℕ)
    → obj_malloc a.if_pool (if_size d.num_rx_rings) ≡ some (ifs, dif)
    → dif ≢ 0
    → ltb_i32 0 d.refs ≡ false
    → d.num_rx_rings ≡ suc n
    → d.rx_rings ≡ r ∷ rs
    → obj_malloc a.ring_pool (ring_size d.num_rx_descs) ≡ some (rings, 0)
    → Points rings rs ks
    → Has m ks
    → (t : NewIf) × (new_if buf_size old a d ≡ some t)
      × (t.dif ≡ 0)
      × (t.adapter ≡ record d { rx_rings = no_rx_ring ∷ rs })
      × (is_free t.pools.ring_pool m ≡ 1)
      × (t.pools.buf_pool ≡ a.buf_pool)
new_if-frees_stale buf_size old a d ifs rings dif n r rs ks m got has first count shape full points
      has_m =
    let (t, e, none_made, pointers, freed, kept) =
      new_if-cleans buf_size old a d ifs rings dif n r rs got has first count shape full in
    (
      t,
      e,
      none_made,
      pointers,
      ap (λ p. is_free p m) freed ∙ free_rings-frees rings rs ks m points has_m,
      kept,
    )
