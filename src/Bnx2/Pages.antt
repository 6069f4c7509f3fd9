-- ===== src/Bnx2/Pages.antt =====
-- The indices of the bnx2 card's ring (drivers/bnx2-2.1.11/bnx2.h): pages of 256 entries, of which
-- the last is a link.
use dpa.Prelude.{
  ℕ, ◌+◌, ◌-◌, ◌*◌, ◌/◌, ◌%◌, ◌^◌, ◌≤◌, ◌<◌, ◌≡◌, ◌⊎◌, inl, inr, bit_and, arith, ◌∙◌, ap, ap₂, ◌==◌,
  Bool-cases, ==_iff, ==_false→ne,
}
use dpa.Prelude.Bits.{bit_and-digit, bit_and-low_mask}
use dpa.Prelude.Word.{ltb_i32}
use dpa.Bnx2.{Bnx2Dev, next_rx_bd, rx_ring_idx, rx_ring, links}

-- The index that the driver has in an uint16_t after u packets from the start of a page: a link is
-- passed after each 255.
abbrev pub index_after : ℕ → ℕ
index_after u = (u + u / 255) % 2 ^ 16

bit_and-254 : (x : ℕ) → bit_and x 254 ≡ x / 2 % 128 * 2
bit_and-254 x = omega (arith, bit_and-digit x 254, bit_and-low_mask 7 (x / 2))

pub next_rx_bd-index_after : (u : ℕ) → next_rx_bd (index_after u) ≡ index_after (u + 1)
unfolding next_rx_bd
next_rx_bd-index_after u = elim (Bool-cases (bit_and (index_after u) 254 == 254)) [
  | inl e ↦ rw e (omega (arith, (==_iff _ _).0 e, bit_and-254 (index_after u)))
  | inr e ↦ rw e (grind (arith, ==_false→ne _ _ e, bit_and-254 (index_after u)))
]

-- Even masks are shifted out.
bit_and-even : (x m y : ℕ) → bit_and (x / 2) m ≡ y → bit_and x (m * 2) ≡ y * 2
bit_and-even x m y e = rw (bit_and-digit x (m * 2), halves, e) (omega arith)
  where
    halves : m * 2 / 2 ≡ m
    halves = omega arith

pub rx_ring-eq : (x : ℕ) → x < 2 ^ 32 → rx_ring x ≡ x / 256
unfolding rx_ring
rx_ring-eq x h =
    let h1 = x / 2 in
    let h2 = h1 / 2 in
    let h3 = h2 / 2 in
    let h4 = h3 / 2 in
    let h5 = h4 / 2 in
    let h6 = h5 / 2 in
    let h7 = h6 / 2 in
    omega (
      arith,
      bit_and-even x (2 ^ 31 - 128) _ (
          bit_and-even h1 (2 ^ 30 - 64) _ (
            bit_and-even h2 (2 ^ 29 - 32) _ (
              bit_and-even h3 (2 ^ 28 - 16) _ (
                bit_and-even h4 (2 ^ 27 - 8) _ (
                  bit_and-even h5 (2 ^ 26 - 4) _ (
                    bit_and-even h6 (2 ^ 25 - 2) _
                      (bit_and-even h7 (2 ^ 24 - 1) _ (bit_and-low_mask 24 (h7 / 2))))))))),
    )

-- A ring of two or four pages, all of whose entries but the links are used.
pub record HasPages (bp : Bnx2Dev) (pages : ℕ) : Type 0 where
  pub two_or_four : (pages ≡ 2) ⊎ (pages ≡ 4)
  pub size : bp.rx_ring_size ≡ 255 * pages
  pub last : bp.rx_max_ring_idx ≡ 256 * pages - 1

links_two :
    (bp : Bnx2Dev) (q d i : ℕ)
    → bp.rx_ring_size ≡ 510
    → d ≤ 2
    → i ≤ 509
    → (d ≡ 0 → i ≤ 255)
    → (d ≡ 2 → 256 ≤ i)
    → links bp (q % 2) ((q + d) % 2) i ≡ d
unfolding links ltb_i32
links_two bp q d i size h hi none all =
    rw (size, rx_ring-eq 510 (omega arith)) (ground (arith, none, all))

links_four :
    (bp : Bnx2Dev) (q d i : ℕ)
    → bp.rx_ring_size ≡ 1020
    → d ≤ 4
    → i ≤ 1019
    → (d ≡ 0 → i ≤ 255)
    → (d ≡ 4 → 256 ≤ i)
    → links bp (q % 4) ((q + d) % 4) i ≡ d
unfolding links ltb_i32
links_four bp q d i size h hi none all =
    rw (size, rx_ring-eq 1020 (omega arith)) (ground (arith, none, all))

-- The links between the packet at u and the one that is i packets further.
abbrev pub passed : ℕ → ℕ → ℕ
passed u i = (u + i) / 255 - u / 255

pub page_after : (u i : ℕ) → (u + i) / 255 ≡ u / 255 + passed u i
page_after u i = omega arith

-- The place on the ring
abbrev pub place : ℕ → ℕ → ℕ
place pages u = index_after u % (256 * pages)

pub page_of : (pages u : ℕ) → (pages ≡ 2) ⊎ (pages ≡ 4) → rx_ring (place pages u) ≡ u / 255 % pages
page_of pages u (inl e) = rw (e, rx_ring-eq (place 2 u) (omega arith)) (omega arith)
page_of pages u (inr e) = rw (e, rx_ring-eq (place 4 u) (omega arith)) (omega arith)

links_pages :
    (bp : Bnx2Dev) (pages q d i : ℕ)
    → HasPages bp pages
    → d ≤ pages
    → i ≤ bp.rx_ring_size - 1
    → (d ≡ 0 → i ≤ 255)
    → (d ≡ pages → 256 ≤ i)
    → links bp (q % pages) ((q + d) % pages) i ≡ d
links_pages bp pages q d i h hi few none all = elim h.two_or_four [
  | inl e ↦ rw e (
      links_two bp q d i (omega (arith, h.size, e)) (omega (arith, hi, e))
        (omega (arith, h.size, e, few)) none (λ z. all (omega (arith, z, e))))
  | inr e ↦ rw e (
      links_four bp q d i (omega (arith, h.size, e)) (omega (arith, hi, e))
        (omega (arith, h.size, e, few)) none (λ z. all (omega (arith, z, e))))
]

pub links-passed :
    {bp : Bnx2Dev} {pages : ℕ} (u i : ℕ)
    → HasPages bp pages
    → i ≤ bp.rx_ring_size - 1
    → links bp (rx_ring (place pages u)) (rx_ring (place pages (u + i))) i ≡ passed u i
links-passed {bp} {pages} u i h hi =
    ap₂ (λ x y. links bp x y i) (page_of pages u h.two_or_four)
      (page_of pages (u + i) h.two_or_four ∙ ap (λ t. t % pages) (page_after u i))
    ∙ links_pages bp pages (u / 255) (passed u i) i h (omega (arith, h.size, hi)) hi
        (λ z. omega (arith, z)) (λ z. grind (arith, z, h.size, h.two_or_four))

-- The way round the ring from a packet to the one that is i packets further.
pub passed-place :
    {bp : Bnx2Dev} {pages : ℕ} (u i : ℕ)
    → HasPages bp pages
    → i ≤ bp.rx_ring_size - 1
    → (place pages (u + i) + 256 * pages - place pages u) % (256 * pages) ≡ i + passed u i
passed-place {bp} {pages} u i h hi = elim h.two_or_four [
  | inl e ↦ rw e (omega (arith, e, h.size, hi))
  | inr e ↦ rw e (omega (arith, e, h.size, hi))
]

pub rx_ring_idx-place :
    {bp : Bnx2Dev} {pages : ℕ} (u : ℕ)
    → HasPages bp pages
    → rx_ring_idx bp (index_after u) ≡ place pages u
unfolding rx_ring_idx
rx_ring_idx-place {bp} {pages} u h = elim h.two_or_four [
  | inl e ↦ rw (h.last, e) (bit_and-low_mask 9 (index_after u))
  | inr e ↦ rw (h.last, e) (bit_and-low_mask 10 (index_after u))
]
