-- ===== src/Pool/Total.antt =====
-- dpa_obj_malloc and dpa_new_bufs (kernel/dpa_mem.c) come to an end on a sound pool.
use dpa.Prelude.{
  ℕ, zero, suc, ◌+◌, ◌≡◌, List, true, some, ◌==◌, ltb, Bool-cases, inl, inr, arith, refl, get_or,
  set,
}
use dpa.Prelude.Word.{u16}
use dpa.Ring.{DpaSlot, no_slot}
use dpa.Pool.{ObjPool, obj_malloc, NewBufs, new_bufs_from, new_bufs, buf_index}
use dpa.Pool.Take.{IsPool}
use dpa.Pool.Find.{obj_malloc-Takes}

-- On a sound pool dpa_obj_malloc ends, whatever is asked for, and leaves a sound pool.
pub obj_malloc_total :
    (p : ObjPool) (len : ℕ)
    → IsPool p
    → (g : ObjPool × ℕ) × (obj_malloc p len ≡ some g) × IsPool g.0
obj_malloc_total p len w = elim (Bool-cases (ltb p.obj_size len)) [
  | inl long ↦ ((p, 0), unfold obj_malloc in rw long, w)
  | inr fits ↦ elim (Bool-cases (p.obj_free == 0)) [
    | inl full ↦ ((p, 0), unfold obj_malloc in rw (fits, full), w)
    | inr room ↦
        let (q, addr, result, sound, takes) =
          obj_malloc-Takes p len w (ground (arith)) (grind arith) in
        ((q, addr), result, sound)
  ]
]

module _ (buf_size n : ℕ) where
  new_bufs_from_total :
      (m : ℕ) (p : ObjPool) (slots : List DpaSlot) (i : ℕ)
      → IsPool p
      → (b : NewBufs) × (new_bufs_from buf_size m n p slots i ≡ some b)
        × (b.is_ok ≡ true → IsPool b.pool)
  unfolding new_bufs_from
  new_bufs_from_total zero p slots i w = (_, refl, (λ e. w))
  new_bufs_from_total (suc m) p slots i w =
      let (g, result, sound) = obj_malloc_total p buf_size w in
      let rest =
        new_bufs_from_total m g.0
          (set slots i (record {
            buf_idx = buf_index g.0 g.1;
            len = u16 p.obj_size;
            info = (get_or slots i no_slot).info;
          }))
          (i + 1) sound in
      elim (Bool-cases (g.1 == 0)) [
        | inl none_left ↦ rw (result, none_left) (_, refl, (λ e. cc))
        | inr some_left ↦ rw (result, some_left) rest
      ]

  -- On a sound pool dpa_new_bufs ends, and leaves a sound pool if it succeeds.
  pub new_bufs_total :
      (p : ObjPool) (slots : List DpaSlot)
      → IsPool p
      → (b : NewBufs) × (new_bufs buf_size p slots n ≡ some b) × (b.is_ok ≡ true → IsPool b.pool)
  unfolding new_bufs
  new_bufs_total p slots w = new_bufs_from_total n p slots 0 w
