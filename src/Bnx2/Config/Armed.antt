-- ===== src/Bnx2/Config/Armed.antt =====
-- What bnx2_dpa_conf_rx_ring (drivers/bnx2-2.1.11/bnx2_dpa.h) leaves in the card's ring.
use dpa.Prelude.{
  ℕ, zero, suc, ◌+◌, ◌*◌, ◌/◌, ◌%◌, ◌^◌, ◌<◌, ◌≡◌, List, Bool, true, some, refl, ap, sym, ◌∙◌,
  arith, get_or, set, length, length-set, get_or-set_self, get_or-set_ne, inl, inr, Bool-cases,
  ==_iff, ◌==◌, ==_false→ne, subst,
}
use dpa.Prelude.Bits.{bit_and-low_mask}
use dpa.Ring.{DpaSlot, no_slot, Kring, idx_n2k}
use dpa.Sync.{Env, buf_vpa}
use dpa.Netdev.{NetDev, no_rx_ring, reset}
use dpa.Bnx2.{RxBd, no_bd, RxRingInfo, Bnx2Dev, rx_ring_idx, next_rx_bd}
use dpa.Bnx2.Pages.{HasPages, index_after, place, next_rx_bd-index_after, rx_ring_idx-place}
use dpa.Bnx2.Config.{conf_bd, conf_bds, conf_slots, conf_rx_ring}

module _ (env : Env) (kr : Kring) (slots : List DpaSlot) where
  -- Entry i has the two addresses of the buffer of the kernel's slot for i.
  pub record IsArmed (r : RxRingInfo) (i : ℕ) : Type 0 where
    pub desc :
        (get_or r.bds i no_bd).desc ≡ (buf_vpa env (get_or slots (idx_n2k kr i) no_slot)).vaddr
    pub mapping :
        (get_or r.bds i no_bd).mapping ≡ (buf_vpa env (get_or slots (idx_n2k kr i) no_slot)).paddr
    pub halves :
        (get_or r.bds i no_bd).haddr_hi * 2 ^ 32 + (get_or r.bds i no_bd).haddr_lo
        ≡ (buf_vpa env (get_or slots (idx_n2k kr i) no_slot)).paddr

  module _ (bp : Bnx2Dev) where
    abbrev bd_for : ℕ → RxBd
    bd_for i =
        let item = buf_vpa env (get_or slots (idx_n2k kr i) no_slot) in
        record {
          desc = item.vaddr;
          mapping = item.paddr;
          haddr_hi = item.paddr / 2 ^ 32;
          haddr_lo = item.paddr % 2 ^ 32;
        }

    bd_for-IsArmed : (r : RxRingInfo) (i : ℕ) → get_or r.bds i no_bd ≡ bd_for i → IsArmed r i
    bd_for-IsArmed r i e = record {
      desc = ap (λ (b : RxBd). b.desc) e;
      mapping = ap (λ (b : RxBd). b.mapping) e;
      halves = ap (λ (b : RxBd). b.haddr_hi * 2 ^ 32 + b.haddr_lo) e ∙ omega arith;
    }

    -- A write of what belongs to an entry spoils none.
    set-bd_for :
        (bds : List RxBd) (i j : ℕ)
        → j < length bds
        → get_or bds i no_bd ≡ bd_for i
        → get_or (set bds j (bd_for j)) i no_bd ≡ bd_for i
    set-bd_for bds i j inside e = elim (Bool-cases (j == i)) [
      | inl same ↦
          let k : j ≡ i = (==_iff _ _).0 same in
          ap (λ t. get_or (set bds t (bd_for t)) i no_bd) k
          ∙ get_or-set_self bds i (bd_for i) no_bd (subst (λ t. t < length bds) k inside)
      | inr ne ↦ get_or-set_ne bds j i (bd_for j) no_bd (==_false→ne _ _ ne) ∙ e
    ]

    -- Every index of the card is inside the ring.
    abbrev Inside : RxRingInfo → Type 0
    Inside r = (x : ℕ) → rx_ring_idx bp x < length r.bds

    -- One turn, and the loop from `prod` on, whose first entry is the one that `prod` stands for.
    abbrev written : ℕ → RxRingInfo → RxRingInfo
    written prod r = conf_bd env bp kr slots (rx_ring_idx bp prod) r

    abbrev filled : ℕ → ℕ → RxRingInfo → RxRingInfo
    filled n prod r = conf_bds env bp kr slots n prod (rx_ring_idx bp prod) r

    conf_bd-Inside : (prod : ℕ) (r : RxRingInfo) → Inside r → Inside (written prod r)
    unfolding conf_bd
    conf_bd-Inside prod r inside x =
        subst (λ t. rx_ring_idx bp x < t)
          (sym (length-set r.bds (rx_ring_idx bp prod) (bd_for (rx_ring_idx bp prod)))) (inside x)

    conf_bd-keeps :
        (prod i : ℕ) (r : RxRingInfo)
        → Inside r
        → get_or r.bds i no_bd ≡ bd_for i
        → get_or (written prod r).bds i no_bd ≡ bd_for i
    unfolding conf_bd
    conf_bd-keeps prod i r inside e = set-bd_for r.bds i (rx_ring_idx bp prod) (inside prod) e

    conf_bd-writes :
        (prod : ℕ) (r : RxRingInfo)
        → Inside r
        → get_or (written prod r).bds (rx_ring_idx bp prod) no_bd ≡ bd_for (rx_ring_idx bp prod)
    unfolding conf_bd
    conf_bd-writes prod r inside =
        get_or-set_self r.bds (rx_ring_idx bp prod) (bd_for (rx_ring_idx bp prod)) no_bd
          (inside prod)

    conf_bds-keeps :
        (n prod : ℕ) (r : RxRingInfo) (i : ℕ)
        → Inside r
        → get_or r.bds i no_bd ≡ bd_for i
        → get_or (filled n prod r).bds i no_bd ≡ bd_for i
    unfolding conf_bds
    conf_bds-keeps zero prod r i inside e = e
    conf_bds-keeps (suc n) prod r i inside e =
        conf_bds-keeps n (next_rx_bd prod) (written prod r) i (conf_bd-Inside prod r inside)
          (conf_bd-keeps prod i r inside e)

    -- The loop from `prod` on writes the entry for x.
    abbrev Writes : ℕ → ℕ → RxRingInfo → ℕ → Type 0
    Writes n prod r x =
        get_or (filled n prod r).bds (rx_ring_idx bp (index_after x)) no_bd
        ≡ bd_for (rx_ring_idx bp (index_after x))

    conf_bds-all :
        (n u j : ℕ) (r : RxRingInfo) → Inside r → j < n → Writes n (index_after u) r (u + j)
    unfolding conf_bds
    conf_bds-all zero u j r inside lt = elim lt [ ]
    conf_bds-all (suc n) u zero r inside lt =
        let here : u ≡ u + 0 = omega arith in
        subst (Writes (suc n) (index_after u) r) here (
          conf_bds-keeps n (next_rx_bd (index_after u)) (written (index_after u) r)
            (rx_ring_idx bp (index_after u)) (conf_bd-Inside (index_after u) r inside)
            (conf_bd-writes (index_after u) r inside))
    conf_bds-all (suc n) u (suc j) r inside lt =
        let there : u + 1 + j ≡ u + suc j = omega arith in
        let r' = written (index_after u) r in
        subst (Writes (suc n) (index_after u) r) there (
          subst (λ t. Writes n t r' (u + 1 + j)) (sym (next_rx_bd-index_after u))
            (conf_bds-all n (u + 1) j r' (conf_bd-Inside (index_after u) r inside)
              (omega (arith, lt))))

    conf_bds-prod :
        (n u : ℕ) (r : RxRingInfo) → (filled n (index_after u) r).rx_prod ≡ index_after (u + n)
    unfolding conf_bds
    conf_bds-prod zero u r = ap index_after (omega arith)
    conf_bds-prod (suc n) u r =
        let r' = written (index_after u) r in
        ap (λ t. (filled n t r').rx_prod) (next_rx_bd-index_after u)
        ∙ conf_bds-prod n (u + 1) r'
        ∙ ap index_after (omega arith)

-- Every index of a card with two or four pages is inside a ring of as many.
pages-Inside :
    {bp : Bnx2Dev} {pages : ℕ} (r : RxRingInfo)
    → HasPages bp pages
    → length r.bds ≡ 256 * pages
    → (x : ℕ) → rx_ring_idx bp x < length r.bds
unfolding rx_ring_idx
pages-Inside {bp} {pages} r h size x = elim h.two_or_four [
  | inl e ↦ rw (h.last, size, e) (omega (arith, bit_and-low_mask 9 x))
  | inr e ↦ rw (h.last, size, e) (omega (arith, bit_and-low_mask 10 x))
]

-- Where dpa_reset gives the slots of the ring, the card has a ring of two or four pages and `rx_prod`
-- is an index of it: bnx2_dpa_conf_rx_ring returns 1, and each entry that the card is given, which are
-- `rx_ring_size` from `rx_prod` on, has the two addresses of the buffer of its slot, by the offset that
-- the reset has set; `rx_prod` is past them.
pub conf_rx_ring-IsArmed :
    (env : Env) (bp : Bnx2Dev) (pages : ℕ) (d d' : NetDev) (slots : List DpaSlot) (ring_id : ℕ)
    (r : RxRingInfo) (u j : ℕ)
    → HasPages bp pages
    → reset d ring_id 0 ≡ (d', some slots)
    → r.rx_prod ≡ index_after u
    → rx_ring_idx bp r.rx_prod ≡ r.rx_prod
    → length r.bds ≡ 256 * pages
    → j < bp.rx_ring_size
    → let (d'', r', done) = conf_rx_ring env bp d ring_id r in
      (d'' ≡ d')
      × (done ≡ true)
      × IsArmed env
          (get_or d'.adapter.rx_rings ring_id no_rx_ring).kring
          slots
          r'
          (place pages (u + j))
      × (r'.rx_prod ≡ index_after (u + bp.rx_ring_size))
unfolding conf_rx_ring conf_slots
conf_rx_ring-IsArmed env bp pages d d' slots ring_id r u j h e at low size few =
    let kr = (get_or d'.adapter.rx_rings ring_id no_rx_ring).kring in
    let run : ℕ → RxRingInfo → RxRingInfo =
      λ t. conf_bds env bp kr slots bp.rx_ring_size t (rx_ring_idx bp t) in
    let Result : NetDev × RxRingInfo × Bool → Type 0 = λ c.
      (c.0 ≡ d')
      × (c.2 ≡ true)
      × IsArmed env kr slots c.1 (place pages (u + j))
      × (c.1.rx_prod ≡ index_after (u + bp.rx_ring_size)) in
    subst (λ c. Result (conf_slots env bp ring_id r c)) (sym e)
      (subst (λ t. Result (d', conf_bds env bp kr slots bp.rx_ring_size r.rx_prod t r, true)) low
        (subst (λ t. Result (d', run t r, true)) (sym at)
          (
            refl,
            refl,
            subst (IsArmed env kr slots (run (index_after u) r)) (rx_ring_idx-place (u + j) h) (
                bd_for-IsArmed env kr slots bp (run (index_after u) r) _
                  (conf_bds-all env kr slots bp bp.rx_ring_size u j r (pages-Inside r h size) few)),
            conf_bds-prod env kr slots bp bp.rx_ring_size u r,
          )))
