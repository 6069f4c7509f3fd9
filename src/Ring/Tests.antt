-- ===== src/Ring/Tests.antt =====
-- Runs of the index maps of kernel/dpa_k.h on a ring of five slots.
use dpa.Prelude.{true, ◌⊎◌, All, ◌<◌, ◌≡◌, [], ◌∷◌, arith, refl}
use dpa.Prelude.Word.{ltb_i32}
use dpa.Ring.{Kring, DpaRing, idx_n2k, idx_k2n, ring_next, ring_first_reserved}
use dpa.Ring.Index.{IsMapped, idx_n2k-idx_k2n}
use dpa.Ring.Reinit.{ring_reinit, ring_reinit-repairs, IsSane}

abbrev five_slots : DpaRing
five_slots = record {
  buf_ofs = 0;
  num_slots = 5;
  avail = 2;
  cur = 1;
  reserved = 3;
  hw_ofs = 3;
  buf_size = 2048;
  slot =
      record { buf_idx = 1; len = 60; info = 0 } ∷ record { buf_idx = 3; len = 60; info = 0 } ∷ [];
}

abbrev shifted : Kring
shifted = record {
  ring = five_slots;
  nr_hwcur = 1;
  nr_hwavail = 2;
  nr_kflags = 0;
  nkr_num_slots = 5;
  nkr_hwofs = 3;
  total_packets = 0;
  total_bytes = 0;
}

shifted-IsMapped : IsMapped shifted
shifted-IsMapped = record { some_slots = omega arith; small = omega arith; offset_in = omega arith }

mapped : (idx_n2k shifted 4 ≡ 2) × (idx_k2n shifted 1 ≡ 3)
unfolding idx_n2k idx_k2n ltb_i32
mapped = (refl, refl)

turned : (ring_next five_slots 4 ≡ 0) × (ring_first_reserved five_slots ≡ 3)
unfolding ring_next ring_first_reserved
turned = (refl, refl)

idx_n2k-idx_k2n_example :
    (idx_n2k shifted (idx_k2n shifted 4) ≡ 4)
    × (idx_k2n shifted (idx_n2k shifted 4) ≡ 4)
    × (idx_n2k shifted 4 < 5)
    × (idx_k2n shifted 4 < 5)
idx_n2k-idx_k2n_example = idx_n2k-idx_k2n 4 shifted-IsMapped (omega arith)

ring_reinit-repairs_example :
    let (kr', r) = ring_reinit 10 2048 shifted true in
    All (IsSane 10 2048) kr'.ring.slot
    × (((r ≡ 0) × (kr'.ring.slot ≡ shifted.ring.slot)) ⊎ (r ≡ 1))
    × (((r ≡ 1) ⊎ (true ≡ true))
        → (kr'.ring.cur ≡ 1) × (kr'.ring.avail ≡ 2) × (kr'.ring.hw_ofs ≡ 3))
ring_reinit-repairs_example = ring_reinit-repairs 10 2048 shifted true
