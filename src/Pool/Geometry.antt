-- ===== src/Pool/Geometry.antt =====
-- The clusters of the packet buffers (kernel/dpa_mem.c, dpa_new_obj_allocator): dpa_param_init of
-- kernel/dpa_main.c makes the size of a buffer a multiple of 1024 of at most 16384 bytes.
use dpa.Prelude.{
  ℕ, zero, suc, ◌+◌, ◌*◌, ◌%◌, ◌≤◌, ◌<◌, ◌≡◌, Bool, true, false, ◌&&◌, ◌==◌, leb, refl, arith,
  Bool-cases, inl, inr, if◌then◌else◌,
}
use native.Mathlib.Decide.{ℕ_discrete}
use dpa.Pool.Build.{align, cluster_entries, cluster_size, entries_from}

abbrev all_below : ℕ → (ℕ → Bool) → Bool
all_below zero f = true
all_below (suc n) f = if f n then all_below n f else false

all_below-at : (n : ℕ) (f : ℕ → Bool) → all_below n f ≡ true → (k : ℕ) → k < n → f k ≡ true
all_below-at zero f e k h = absurd (omega arith)
all_below-at (suc n) f e k h = elim (Bool-cases (f n)) [
  | inl t ↦ elim (ℕ_discrete k n) [
    | yes p ↦ rw p t
    | no p ↦ all_below-at n f (rw t at e) k (grind arith)
  ]
  | inr t ↦ absurd (grind (arith, (rw t at e)))
]

abbrev exact : ℕ → Bool
exact k =
    let size = (k + 1) * 1024 in
    let entries = cluster_entries size in
    (align size == size)
    && ((cluster_size entries size == entries * size)
        && ((entries * size % 4096 == 0) && (leb 1 entries && leb entries 4)))

exact_all : all_below 16 exact ≡ true
unfolding cluster_entries cluster_size align entries_from
exact_all = refl

-- For buffers of a multiple of 1024 bytes, up to 16384, nothing is added to the size, a cluster
-- holds one to four buffers, and the buffers fill the cluster, which is of whole pages.
pub buffers-fill_clusters :
    (k : ℕ)
    → k < 16
    → let size = (k + 1) * 1024 in
      let entries = cluster_entries size in
      (align size ≡ size)
      × (cluster_size entries size ≡ entries * size)
      × (entries * size % 4096 ≡ 0)
      × (1 ≤ entries)
      × (entries ≤ 4)
buffers-fill_clusters k h = ground (arith, all_below-at 16 exact exact_all k h)
