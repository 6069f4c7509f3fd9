-- ===== src/Entry/Limits.antt =====
-- The limits of the module's parameters (kernel/dpa_main.c, dpa_param_init).
use dpa.Prelude.{ℕ, ◌*◌, ◌%◌, ◌≤◌, ◌≡◌}
use dpa.Pool.Build.{cluster_entries, cluster_size, align}

-- A size of which one to four fill a cluster of whole pages
abbrev pub FillsClusters : ℕ → Type 0
FillsClusters size =
    let entries = cluster_entries size in
    (align size ≡ size)
    × (cluster_size entries size ≡ entries * size)
    × (entries * size % 4096 ≡ 0)
    × (1 ≤ entries)
    × (entries ≤ 4)
