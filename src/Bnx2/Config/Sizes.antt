-- ===== src/Bnx2/Config/Sizes.antt =====
-- The sizes that the bnx2 driver settles on for the module (drivers/bnx2-2.1.11/bnx2.c), and when
-- bnx2_dpa_rx_sync counts the links of such a ring.
use dpa.Prelude.{
  ℕ, ◌+◌, ◌/◌, ◌%◌, ◌≤◌, ◌<◌, ◌≡◌, ◌⊎◌, inl, inr, refl, ap, ap₂, ◌∙◌, arith, leb, if◌then◌else◌,
}
use dpa.Prelude.Word.{ltb_i32}
use dpa.Bnx2.{Bnx2Dev, rx_ring, links}
use dpa.Bnx2.Pages.{HasPages, place, passed, page_of, page_after, rx_ring-eq}
use dpa.Bnx2.Config.{dpa_rx_ring_count, find_max_ring, set_rx_ring_size}

-- The ring of a card for dpa_num_rx_descs
abbrev pub configured : Bnx2Dev → ℕ → Bnx2Dev
configured bp n = set_rx_ring_size bp (dpa_rx_ring_count n)

count_few : (n : ℕ) → 256 ≤ n → n ≤ 510 → dpa_rx_ring_count n ≡ 510
unfolding dpa_rx_ring_count
count_few n lo hi = ground arith

count_many : (n : ℕ) → 766 ≤ n → dpa_rx_ring_count n ≡ 1020
unfolding dpa_rx_ring_count
count_many n lo = ground arith

count_between : (n : ℕ) → 511 ≤ n → n ≤ 765 → dpa_rx_ring_count n ≡ 765
unfolding dpa_rx_ring_count
count_between n lo hi = ground arith

two_pages : find_max_ring 510 4 ≡ 2
unfolding find_max_ring
two_pages = refl

three_pages : find_max_ring 765 4 ≡ 4
unfolding find_max_ring
three_pages = refl

four_pages : find_max_ring 1020 4 ≡ 4
unfolding find_max_ring
four_pages = refl

-- For dpa_num_rx_descs of 256 to 510, or of 766 and more, every entry of the ring's two or four pages
-- but the links is used.
pub configured-HasPages :
    (bp : Bnx2Dev) (n : ℕ)
    → 256 ≤ n
    → (n ≤ 510) ⊎ (766 ≤ n)
    → HasPages (configured bp n) (if leb n 510 then 2 else 4)
unfolding set_rx_ring_size
configured-HasPages bp n lo (inl few) = rw (count_few n lo few, two_pages) (grind (arith, few))
configured-HasPages bp n lo (inr many) = rw (count_many n many, four_pages) (grind (arith, many))

wrapped :
    (bp : Bnx2Dev) (q d i : ℕ)
    → bp.rx_ring_size ≡ 765
    → d ≤ 4
    → (q + d) % 4 < q % 4
    → links bp (q % 4) ((q + d) % 4) i + 1 ≡ d
unfolding links ltb_i32
wrapped bp q d i size few back = rw (size, rx_ring-eq 765 (omega arith)) (ground arith)

size_between : (bp : Bnx2Dev) (n : ℕ) → 511 ≤ n → n ≤ 765 → (configured bp n).rx_ring_size ≡ 765
unfolding set_rx_ring_size
size_between bp n lo hi = count_between n lo hi

last_between : (bp : Bnx2Dev) (n : ℕ) → 511 ≤ n → n ≤ 765 → (configured bp n).rx_max_ring_idx ≡ 1023
unfolding set_rx_ring_size
last_between bp n lo hi = rw (count_between n lo hi, three_pages) refl

-- For dpa_num_rx_descs of 511 to 765 the ring has four pages, but bnx2_dpa_rx_sync takes it for one of
-- three: it counts one link too few whenever it comes back to an earlier page.
pub links-passed_short :
    (bp : Bnx2Dev) (n u i : ℕ)
    → 511 ≤ n
    → n ≤ 765
    → i ≤ 764
    → (u + i) / 255 % 4 < u / 255 % 4
    → ((configured bp n).rx_max_ring_idx ≡ 1023)
      × (links (configured bp n) (rx_ring (place 4 u)) (rx_ring (place 4 (u + i))) i + 1
          ≡ passed u i)
links-passed_short bp n u i lo hi few back = (
  last_between bp n lo hi,
  ap₂ (λ x y. links (configured bp n) x y i + 1) (page_of 4 u (inr refl))
        (page_of 4 (u + i) (inr refl) ∙ ap (λ t. t % 4) (page_after u i))
      ∙ wrapped (configured bp n) (u / 255) (passed u i) i (size_between bp n lo hi) (omega arith)
          (omega (arith, back, ap (λ (t : ℕ). t % 4) (page_after u i))),
)
