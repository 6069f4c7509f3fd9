-- ===== src/Bnx2/Counts.antt =====
-- What the first half of bnx2_dpa_rx_sync (drivers/bnx2-2.1.11/bnx2_dpa.h) counts.
use dpa.Prelude.{
  ℕ, ◌+◌, ◌-◌, ◌%◌, ◌^◌, ◌≤◌, ◌<◌, ◌≡◌, ◌∙◌, ap, ap₂, sym, refl, subst, inl, inr, ◌==◌, Bool-cases,
  ==_iff, arith,
}
use dpa.Prelude.Word.{add32, u64}
use dpa.Ring.{idx_n2k}
use dpa.Bnx2.{
  L2Fhdr, Bnx2Dev, BnxRx, Reaped, get_hw_rx_cons, reap, enter_reaped, reap_all, links, rx_ring,
  rx_ring_idx,
}
use dpa.Bnx2.Pages.{HasPages, index_after, place, passed, links-passed, passed-place}
use dpa.Bnx2.Reaps.{IsAligned, At, idx_n2k-place, reap-At, reap-i, get_hw_rx_cons-seen}

module _ (bp : Bnx2Dev) (hw : ℕ → ℕ) (hdr : ℕ → L2Fhdr) {pages : ℕ} (h : HasPages bp pages)
    (s : BnxRx) (al : IsAligned s.kring pages) (u : ℕ) where
  -- Counted up to the packet u + n
  pub record Reaps (n : ℕ) (s' : BnxRx) : Type 0 where
    pub cons : s'.nic.rx_cons ≡ index_after (u + n)
    pub packets : s'.kring.total_packets ≡ u64 (s.kring.total_packets + n)
    pub avail :
        s'.kring.nr_hwavail
        ≡ s.kring.nr_hwavail
          + (idx_n2k s.kring (rx_ring_idx bp s'.nic.rx_cons)
              + s.kring.nkr_num_slots
              - idx_n2k s.kring (rx_ring_idx bp s.nic.rx_cons))
            % s.kring.nkr_num_slots

  -- The way round the ring from the old index to the new one
  distance :
      (n : ℕ) (x y : ℕ)
      → n ≤ bp.rx_ring_size - 1
      → x ≡ index_after u
      → y ≡ index_after (u + n)
      → (idx_n2k s.kring (rx_ring_idx bp y)
            + s.kring.nkr_num_slots
            - idx_n2k s.kring (rx_ring_idx bp x))
          % s.kring.nkr_num_slots
        ≡ n + passed u n
  distance n x y few ex ey =
      let at = idx_n2k-place bp hw hdr h s.kring al u in
      ap₂ (λ a b. (a + s.kring.nkr_num_slots - b) % s.kring.nkr_num_slots)
        (ap (λ t. idx_n2k s.kring (rx_ring_idx bp t)) ey ∙ at (u + n))
        (ap (λ t. idx_n2k s.kring (rx_ring_idx bp t)) ex ∙ at u)
      ∙ ap (λ t. (place pages (u + n) + t - place pages u) % t) al.slots
      ∙ passed-place u n h few

  no_wrap :
      (n l : ℕ)
      → n ≤ bp.rx_ring_size - 1
      → l ≡ passed u n
      → add32 (add32 s.kring.nr_hwavail n) l ≡ s.kring.nr_hwavail + (n + passed u n)
  no_wrap n l few e =
      let small : bp.rx_ring_size ≤ 1020 = grind (arith, h.size, h.two_or_four) in
      let room : s.kring.nr_hwavail ≤ 1024 = grind (arith, al.avail, h.two_or_four) in
      omega (arith, few, e)

  enter_reaped-Reaps :
      (r : Reaped)
      → s.nic.rx_cons ≡ index_after u
      → At bp hw hdr h s.kring al u r
      → s.kring.total_packets < 2 ^ 64
      → Reaps r.i (enter_reaped bp hw hdr s (rx_ring (place pages u)) r)
  unfolding enter_reaped
  enter_reaped-Reaps r e a small = elim (Bool-cases (r.i == 0)) [
    | inl none ↦
        let z : r.i ≡ 0 = (==_iff _ _).0 none in
        let same : s.nic.rx_cons ≡ index_after (u + r.i) = e ∙ ap index_after (omega (arith, z)) in
        rw none (record {
          cons = same;
          packets = omega (arith, z, small);
          avail = omega (arith, z, distance r.i s.nic.rx_cons s.nic.rx_cons a.few e same);
        })
    | inr some ↦ rw some (record {
      cons = a.cons;
      packets = refl;
      avail =
          no_wrap r.i _ a.few (
            ap (λ t. links bp (rx_ring (place pages u)) (rx_ring t) r.i) a.at_k
            ∙ links-passed u r.i h a.few)
          ∙ ap (λ t. s.kring.nr_hwavail + t)
              (sym (distance r.i s.nic.rx_cons r.sw_cons a.few e a.cons));
    })
  ]

  -- bnx2_dpa_rx_sync takes in what the card has: on a ring of two or four pages whose kernel ring
  -- has the same indices, if m packets have come since the last call and there is room for them,
  -- the driver's index and the packet counter move on by m packets, and `nr_hwavail`, which counts
  -- entries, grows by the way round the kernel's ring from the old index to the new one, the links
  -- that were passed included.
  pub reap_all-Reaps :
      (m : ℕ)
      → s.nic.rx_cons ≡ index_after u
      → s.kring.total_packets < 2 ^ 64
      → ((t : ℕ) → hw t ≡ index_after (u + m))
      → m + s.kring.nr_hwavail ≤ bp.rx_ring_size - 1
      → Reaps m (reap_all bp hw hdr s)
  unfolding reap_all
  reap_all-Reaps m e small seen room =
      let at = idx_n2k-place bp hw hdr h s.kring al u in
      let k = idx_n2k s.kring (rx_ring_idx bp s.nic.rx_cons) in
      let k_eq : k ≡ place pages u = ap (λ t. idx_n2k s.kring (rx_ring_idx bp t)) e ∙ at u in
      let none_yet : u ≡ u + 0 = omega arith in
      let start : Reaped = record {
        slot = s.kring.ring.slot;
        k = k;
        i = 0;
        bytes = 0;
        sw_cons = s.nic.rx_cons;
        hw_cons = get_hw_rx_cons bp hw hdr 0;
        reads = 1;
      } in
      let start-At : At bp hw hdr h s.kring al u start = record {
        cons = e ∙ ap index_after none_yet;
        at_k = k_eq ∙ ap (place pages) none_yet;
        few = omega arith;
      } in
      let r = reap bp hw hdr bp.rx_ring_size s.nic s.kring start in
      let all : r.i ≡ m =
        reap-i bp hw hdr h s.kring al u m seen room s.nic bp.rx_ring_size start start-At
          (get_hw_rx_cons-seen bp hw hdr h s.kring al u m seen room 0) (omega arith)
          (omega (arith, room)) in
      subst (λ b. Reaps m (enter_reaped bp hw hdr s (rx_ring b) r)) (sym k_eq)
        (subst (λ n. Reaps n (enter_reaped bp hw hdr s (rx_ring (place pages u)) r)) all
          (enter_reaped-Reaps r e
            (reap-At bp hw hdr h s.kring al u s.nic bp.rx_ring_size start start-At) small))
