-- ===== src/Session/Tests.antt =====
-- Runs of dpa_set_ring_id and dpa_poll (kernel/dpa_main.c) on four rings, of which only their
-- numbers of available packets are kept.
use dpa.Prelude.{
  ℕ, ◌+◌, ◌<◌, ◌≡◌, ◌⊎◌, List, [], ◌∷◌, true, some, arith, get_or, set, bit_and, refl,
}
use dpa.Session.{DpaPriv, set_ring_id, poll, ioctl_rx_sync}
use dpa.Session.Polled.{Selects, synced, poll-syncs}

abbrev fresh : DpaPriv
fresh = record { ring_id = 0; rfirst = 0; rlast = 0 }

abbrev third : DpaPriv
third = record { ring_id = 2; rfirst = 2; rlast = 3 }

abbrev avail : List ℕ → ℕ → ℕ
avail s i = get_or s i 0

-- Each call brings one packet.
abbrev rx_sync : ℕ → List ℕ → List ℕ × ℕ
rx_sync i s = (set s i (get_or s i 0 + 1), 0)

third_set : set_ring_id 4 fresh 2 ≡ some third
unfolding set_ring_id
third_set = refl

abbrev empty_rings : List ℕ
empty_rings = 0 ∷ 0 ∷ 0 ∷ 0 ∷ []

poll-syncs_example :
    (((poll avail rx_sync 4 true (some third) 1 empty_rings ≡ (empty_rings, bit_and 1 65))
        × ((j : ℕ) × Selects avail rx_sync 4 2 j × (0 < avail empty_rings j)))
      ⊎ (((j : ℕ) → Selects avail rx_sync 4 2 j → avail empty_rings j ≡ 0)
          × ((poll avail rx_sync 4 true (some third) 1 empty_rings).0
              ≡ synced avail rx_sync 4 2 empty_rings)))
    × (ioctl_rx_sync avail rx_sync 4 third empty_rings ≡ synced avail rx_sync 4 2 empty_rings)
poll-syncs_example =
    poll-syncs avail rx_sync 4 (omega arith) fresh 2 third third_set 1 empty_rings
      (λ e. absurd (omega (arith, e)))
