-- ===== src/Pool/Tests.antt =====
-- Runs of the pool of kernel/dpa_mem.c on five objects.
use dpa.Prelude.{ℕ, ◌≡◌, ◌≢◌, some, refl, arith}
use dpa.Pool.{ObjPool, obj_malloc, obj_free_index}
use dpa.Pool.Bitmap.{is_free}
use dpa.Pool.Take.{IsPool}
use dpa.Pool.Find.{Takes, obj_malloc-Takes, obj_free_index-returns}
use dpa.Pool.Samples.{five, five-IsPool}

obj_malloc-Takes_example :
    (q : ObjPool) × (addr : ℕ) × (obj_malloc five 100 ≡ some (q, addr))
    × IsPool q
    × Takes five q addr
obj_malloc-Takes_example = obj_malloc-Takes five 100 five-IsPool (omega arith) (omega arith)

obj_free_index-returns_example :
    let q = obj_free_index five 3 in
    IsPool q
    × (is_free q 3 ≡ 1)
    × ((m : ℕ) → m ≢ 3 → is_free q m ≡ is_free five m)
    × (q.obj_free ≡ 3)
obj_free_index-returns_example =
    obj_free_index-returns five 3 five-IsPool (omega arith) (omega arith) refl
