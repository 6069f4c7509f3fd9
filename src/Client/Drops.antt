-- ===== src/Client/Drops.antt =====
-- The count of drops that dup_get_rx_stats (lib/dup_intf.c) gives.
use dpa.Prelude.{ℕ, zero, suc, ◌+◌, ◌^◌, ◌≡◌, false, arith, refl, ap, ◌∙◌}
use native.Mathlib.Nat.{mod-add-mod}
use dpa.Prelude.Word.{u64}
use dpa.Queue.{DupQueue}
use dpa.Raw.{DpaStats}
use dpa.Netdev.{dpa_magic}
use dpa.Client.{Handle, ShmHead, is_null, drops_from, dup_get_rx_stats}

-- The drops of n queues from i on
unfoldable pub total_drops : ℕ → ℕ → (ℕ → DupQueue) → ℕ
total_drops zero i queues = 0
total_drops (suc n) i queues = (queues i).drop_packets + total_drops n (i + 1) queues

drops_from-eq :
    (n i : ℕ) (queues : ℕ → DupQueue) (drops : ℕ)
    → u64 (drops_from n i queues drops) ≡ u64 (drops + total_drops n i queues)
unfolding drops_from total_drops
drops_from-eq zero i queues drops = ap u64 (omega arith)
drops_from-eq (suc n) i queues drops =
    drops_from-eq n (i + 1) queues (u64 (drops + (queues i).drop_packets))
    ∙ mod-add-mod (drops + (queues i).drop_packets) (2 ^ 64) (total_drops n (i + 1) queues)
    ∙ ap u64 (omega arith)

-- On valid shared memory, for the drops of all queues: the result is success, the handle counts as
-- enabled, and `drops` is, modulo 2 ^ 64, what the caller had in it and the drops of all queues.
pub dup_get_rx_stats-adds :
    (h : Handle) (s : ShmHead) (queues : ℕ → DupQueue) (stats : DpaStats)
    → is_null h.addr ≡ false
    → s.magic ≡ dpa_magic
    → let (found, e) = dup_get_rx_stats h s queues 4 4096 stats in
      (e ≡ 0)
      × (found.enabled ≡ 1)
      × (found.packets ≡ stats.packets)
      × (u64 found.drops ≡ u64 (stats.drops + total_drops s.num_queues 0 queues))
unfolding dup_get_rx_stats
dup_get_rx_stats-adds h s queues stats a m =
    rw (a, m) (refl, refl, refl, drops_from-eq s.num_queues 0 queues stats.drops)
