-- ===== src/Bnx2/Reaps.antt =====
-- The loop of bnx2_dpa_rx_sync (drivers/bnx2-2.1.11/bnx2_dpa.h) over the packets that the card has
-- put in, on a ring that the card has not been reset on.
use dpa.Prelude.{
  ℕ, zero, suc, ◌+◌, ◌-◌, ◌*◌, ◌≤◌, ◌<◌, ◌≡◌, ◌∙◌, ap, ap₂, sym, refl, false, inl, inr, leb, ◌==◌,
  Bool-cases, ==_iff, ne→==_false, arith,
}
use native.Mathlib.Decide.{dec_lt}
use dpa.Prelude.Bits.{bit_and-low_mask}
use dpa.Prelude.Word.{add32, sub32, ltb_i32}
use dpa.Ring.{Kring, idx_n2k}
use dpa.Bnx2.{
  L2Fhdr, Bnx2Dev, RxRingInfo, Reaped, get_hw_rx_cons, read_again, reap_one, reap, rx_ring_idx,
  next_rx_bd,
}
use dpa.Bnx2.Pages.{HasPages, index_after, place, next_rx_bd-index_after, rx_ring_idx-place}

-- The kernel's ring has an entry for each of the card's, at the same index.
pub record IsAligned (kr : Kring) (pages : ℕ) : Type 0 where
  pub slots : kr.nkr_num_slots ≡ 256 * pages
  pub offset : kr.nkr_hwofs ≡ 0
  pub avail : kr.nr_hwavail ≤ 256 * pages

module _ (bp : Bnx2Dev) (hw : ℕ → ℕ) (hdr : ℕ → L2Fhdr) {pages : ℕ} (h : HasPages bp pages)
    (kr : Kring) (al : IsAligned kr pages) (u : ℕ) where
  -- The locals after i packets.
  pub record At (r : Reaped) : Type 0 where
    pub cons : r.sw_cons ≡ index_after (u + r.i)
    pub at_k : r.k ≡ place pages (u + r.i)
    pub few : r.i ≤ bp.rx_ring_size - 1

  pub idx_n2k-place : (v : ℕ) → idx_n2k kr (rx_ring_idx bp (index_after v)) ≡ place pages v
  unfolding idx_n2k ltb_i32
  idx_n2k-place v = rw (rx_ring_idx-place v h) (grind (arith, al.slots, al.offset, h.two_or_four))

  pub read_again-At : (r : Reaped) → At r → At (read_again bp hw hdr r)
  unfolding read_again
  read_again-At r a = elim (Bool-cases (r.sw_cons == r.hw_cons)) [
    | inl e ↦ rw e (record { cons = a.cons; at_k = a.at_k; few = a.few })
    | inr e ↦ rw e a
  ]

  reap_one-At :
      (nic : RxRingInfo) (r : Reaped)
      → At r
      → leb (sub32 bp.rx_ring_size 1) (add32 r.i kr.nr_hwavail) ≡ false
      → At (reap_one bp hw hdr nic kr r)
  unfolding reap_one
  reap_one-At nic r a more =
      let step : u + r.i + 1 ≡ u + add32 r.i 1 = grind (arith, a.few, h.size, h.two_or_four) in
      let cons : next_rx_bd r.sw_cons ≡ index_after (u + add32 r.i 1) =
        ap next_rx_bd a.cons ∙ next_rx_bd-index_after (u + r.i) ∙ ap index_after step in
      record {
        cons = cons;
        at_k = ap (λ t. idx_n2k kr (rx_ring_idx bp t)) cons ∙ idx_n2k-place (u + add32 r.i 1);
        few = grind (arith, more, a.few, h.size, h.two_or_four, al.avail);
      }

  read_again-i : (r : Reaped) → (read_again bp hw hdr r).i ≡ r.i
  unfolding read_again
  read_again-i r = elim (Bool-cases (r.sw_cons == r.hw_cons)) [
    | inl e ↦ rw e refl
    | inr e ↦ rw e refl
  ]

  reap_one-rest :
      (nic : RxRingInfo) (r : Reaped)
      → let r' = reap_one bp hw hdr nic kr r in (r'.hw_cons ≡ r.hw_cons) × (r'.i ≡ add32 r.i 1)
  unfolding reap_one
  reap_one-rest nic r = (refl, refl)

  pub reap-At : (nic : RxRingInfo) (f : ℕ) (r : Reaped) → At r → At (reap bp hw hdr f nic kr r)
  unfolding reap
  reap-At nic zero r a = a
  reap-At nic (suc f) r a =
      elim (Bool-cases (leb (sub32 bp.rx_ring_size 1) (add32 r.i kr.nr_hwavail))) [
        | inl full ↦ rw full a
        | inr more ↦
            let r' = read_again bp hw hdr r in
            elim (Bool-cases (r'.sw_cons == r'.hw_cons)) [
              | inl e ↦ rw (more, e) (read_again-At r a)
              | inr e ↦
                  rw (more, e)
                    (reap-At nic f (reap_one bp hw hdr nic kr r') (
                      reap_one-At nic r' (read_again-At r a) (
                        ap (λ t. leb (sub32 bp.rx_ring_size 1) (add32 t kr.nr_hwavail))
                          (read_again-i r)
                        ∙ more)))
            ]
      ]

  -- What the card shows once u + m packets have come.
  module _ (m : ℕ) (seen : (t : ℕ) → hw t ≡ index_after (u + m))
      (room : m + kr.nr_hwavail ≤ bp.rx_ring_size - 1) where
    pub get_hw_rx_cons-seen : (t : ℕ) → get_hw_rx_cons bp hw hdr t ≡ index_after (u + m)
    unfolding get_hw_rx_cons
    get_hw_rx_cons-seen t = rw (seen t) (ground (arith, bit_and-low_mask 8 (index_after (u + m))))

    read_again-seen :
        (r : Reaped)
        → r.hw_cons ≡ index_after (u + m)
        → (read_again bp hw hdr r).hw_cons ≡ index_after (u + m)
    unfolding read_again
    read_again-seen r e = elim (Bool-cases (r.sw_cons == r.hw_cons)) [
      | inl same ↦ rw same (get_hw_rx_cons-seen r.reads)
      | inr ne ↦ rw ne e
    ]

    -- The indices of fewer packets than a ring has are all different.
    index_after-ne : (i : ℕ) → i < m → (index_after (u + i) == index_after (u + m)) ≡ false
    index_after-ne i few =
        let m_small : m ≤ 1019 = grind (arith, room, h.size, h.two_or_four) in
        ne→==_false _ _ (λ e. omega (arith, e, m_small, few))

    fits : (i : ℕ) → i < m → leb (sub32 bp.rx_ring_size 1) (add32 i kr.nr_hwavail) ≡ false
    fits i few = grind (arith, room, few, h.size, h.two_or_four)

    pub reap-i :
        (nic : RxRingInfo) (f : ℕ) (r : Reaped)
        → At r
        → r.hw_cons ≡ index_after (u + m)
        → r.i ≤ m
        → m ≤ r.i + f
        → (reap bp hw hdr f nic kr r).i ≡ m
    unfolding reap
    reap-i nic zero r a e few enough = omega arith
    reap-i nic (suc f) r a e few enough =
        let r' = read_again bp hw hdr r in
        let e' = read_again-seen r e in
        let a' = read_again-At r a in
        elim (dec_lt r.i m) [
          | yes p ↦
              let differ : (r'.sw_cons == r'.hw_cons) ≡ false =
                ap₂ ◌==◌ (a'.cons ∙ ap (λ t. index_after (u + t)) (read_again-i r)) e'
                ∙ index_after-ne r.i p in
              let more = fits r.i p in
              let a'' = reap_one-At nic r' a' (
                ap (λ t. leb (sub32 bp.rx_ring_size 1) (add32 t kr.nr_hwavail)) (read_again-i r)
                ∙ more) in
              let (same_hw, next_i) = reap_one-rest nic r' in
              let one_more : (reap_one bp hw hdr nic kr r').i ≡ r.i + 1 =
                next_i ∙ grind (arith, read_again-i r, p, room, h.size, h.two_or_four) in
              rw (more, differ)
                (reap-i nic f (reap_one bp hw hdr nic kr r') a'' (same_hw ∙ e')
                  (omega (arith, p, one_more)) (omega (arith, enough, one_more)))
          | no p ↦
              let last : r.i ≡ m = omega arith in
              elim (Bool-cases (leb (sub32 bp.rx_ring_size 1) (add32 r.i kr.nr_hwavail))) [
                | inl stop ↦ rw stop last
                | inr more ↦
                    rw
                      (
                        more,
                        (==_iff r'.sw_cons r'.hw_cons).1 (
                            a'.cons
                            ∙ ap (λ t. index_after (u + t)) (read_again-i r ∙ last)
                            ∙ sym e'),
                      )
                      (read_again-i r ∙ last)
              ]
        ]
