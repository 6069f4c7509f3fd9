-- ===== src/Sync/Counts.antt =====
-- igb_dpa_rx_sync (drivers/igb-3.0.6/igb_dpa.h) as a whole: what it does to the kernel's counters
-- and to those that the process sees.
use dpa.Prelude.{
  ℕ, ◌+◌, ◌-◌, ◌%◌, ◌^◌, ◌≤◌, ◌<◌, ◌≡◌, inl, inr, if◌then◌else◌, leb, some, refl, ap, sym, ◌∙◌,
  arith, get_or, ==_iff, Bool-cases, ◌==◌,
}
use native.Mathlib.Nat.{mod-lt, mod-eq_of_lt}
use dpa.Prelude.Mod.{mod_cases, advance-distance}
use dpa.Prelude.Word.{u64, sub32}
use dpa.Ring.{DpaSlot, no_slot, idx_k2n}
use dpa.Ring.Index.{IsMapped, idx_k2n-eq}
use dpa.Pool.{AddrTblItem, no_item}
use dpa.Sync.{
  Env, Rx, Harvest, enter_harvest, clear_pending, buf_vpa, publish_avail, after_refill,
  release_slots,
}
use dpa.Sync.Released.{HasBuffers, refill-run, checked_reserved-eq, release_to-eq}

abbrev size : Rx → ℕ
size s = s.kring.nkr_num_slots

-- A ring whose indices are in range, whose process reserved no more than fits, and whose slots all
-- have buffers.
pub record IsSound (env : Env) (s : Rx) : Type 0 where
  pub mapped : IsMapped s.kring
  pub cur_in : s.kring.ring.cur < s.kring.nkr_num_slots
  pub hwcur_in : s.kring.nr_hwcur < s.kring.nkr_num_slots
  pub clean_in : s.nic.next_to_clean < s.kring.nkr_num_slots
  pub reserved_fits : s.kring.ring.reserved + s.kring.ring.avail < s.kring.nkr_num_slots
  pub bufs : HasBuffers env s.kring.ring.slot s.kring.nkr_num_slots

-- Where the process's released slots end, and how many they are.
abbrev pub release_end : Rx → ℕ
release_end s =
    (s.kring.ring.cur + s.kring.nkr_num_slots - s.kring.ring.reserved) % s.kring.nkr_num_slots

abbrev pub released : Rx → ℕ
released s = (release_end s + s.kring.nkr_num_slots - s.kring.nr_hwcur) % s.kring.nkr_num_slots

-- The part of the state that the first half keeps, and what it counts: m packets.
pub record Received (env : Env) (m : ℕ) (s s' : Rx) : Type 0 where
  pub sound : IsSound env s'
  pub same_end : release_end s' ≡ release_end s
  pub same_released : released s' ≡ released s
  pub same_reserved : s'.kring.ring.reserved ≡ s.kring.ring.reserved
  pub same_size : s'.kring.nkr_num_slots ≡ s.kring.nkr_num_slots
  pub counted : s'.kring.nr_hwavail ≡ s.kring.nr_hwavail + m
  pub clean : s'.nic.next_to_clean ≡ (s.nic.next_to_clean + m) % s.kring.nkr_num_slots
  pub packets : u64 s'.kring.total_packets ≡ u64 (s.kring.total_packets + m)

module _ (env : Env) (s : Rx) (o : IsSound env s) where
  -- The second half.
  pub release_slots-counts :
      released s + s.kring.ring.reserved ≤ s.kring.nr_hwavail
      → s.kring.nr_hwavail < s.kring.nkr_num_slots
      → (s' : Rx) × (release_slots env s ≡ some (s', 0))
        × (s'.kring.nr_hwcur ≡ release_end s)
        × (s'.kring.nr_hwavail + released s ≡ s.kring.nr_hwavail)
        × (s'.kring.ring.avail + s.kring.ring.reserved ≡ s'.kring.nr_hwavail)
        × (s'.kring.ring.reserved ≡ s.kring.ring.reserved)
        × (s'.nic.next_to_clean ≡ s.nic.next_to_clean)
        × (s'.kring.total_packets ≡ s.kring.total_packets)
  unfolding release_slots after_refill
  release_slots-counts few small =
      let m = o.mapped in
      let resvd = checked_reserved-eq s.kring o.reserved_fits m.small in
      let end_ =
        release_to-eq s.kring s.kring.ring.reserved (omega (arith, o.reserved_fits)) o.cur_in
          m.small in
      elim (Bool-cases (s.kring.nr_hwcur == release_end s)) [
        | inl e ↦
            let same : s.kring.nr_hwcur ≡ release_end s = (==_iff _ _).0 e in
            let idle : released s ≡ 0 =
              ground
                (arith, same, mod_cases (release_end s + size s - s.kring.nr_hwcur) (size s)) in
            rw (resvd, end_, e)
              (
                _,
                refl,
                unfold publish_avail in same,
                unfold publish_avail in omega arith,
                unfold publish_avail in omega (arith, m.small),
                unfold publish_avail in refl,
                unfold publish_avail in refl,
                unfold publish_avail in refl,
              )
        | inr e ↦
            let target : release_end s ≡ (s.kring.nr_hwcur + released s) % size s = sym (
              advance-distance s.kring.nr_hwcur (release_end s) (size s) o.hwcur_in
                (mod-lt _ m.some_slots)) in
            let last : sub32 (size s) 1 ≡ size s - 1 = omega (arith, m.some_slots, m.small) in
            let start : idx_k2n s.kring s.kring.nr_hwcur < size s =
              rw (idx_k2n-eq s.kring.nr_hwcur m o.hwcur_in) (mod-lt _ m.some_slots) in
            let (desc, r) =
              refill-run env s.kring.ring.slot (size s) (release_end s) m.small o.bufs (released s)
                (size s + 1) s.nic.desc s.kring.nr_hwcur (idx_k2n s.kring s.kring.nr_hwcur) 0
                o.hwcur_in start (omega (arith, few, small)) (omega (arith, few, small))
                (omega (arith, few, small, m.small)) target in
            rw (resvd, end_, e, last, r)
              (
                _,
                refl,
                unfold publish_avail in refl,
                unfold publish_avail in omega (arith, few, small, m.small),
                unfold publish_avail in omega (arith, few, small, m.small),
                unfold publish_avail in refl,
                unfold publish_avail in refl,
                unfold publish_avail in refl,
              )
      ]

-- The buffers do not depend on what the first half writes into the slots.
buf_vpa-same : (env : Env) (x y : DpaSlot) → x.buf_idx ≡ y.buf_idx → buf_vpa env x ≡ buf_vpa env y
unfolding buf_vpa
buf_vpa-same env x y e =
    ap (λ i. get_or env.atbl (if leb env.total_buffers i then 0 else i) no_item) e

module _ (env : Env) (s : Rx) (o : IsSound env s) (m : ℕ) (h : Harvest)
    (small : s.kring.nr_hwavail + m < 2 ^ 32) (count_eq : h.count ≡ m)
    (n_eq : h.n ≡ (s.nic.next_to_clean + m) % s.kring.nkr_num_slots)
    (bufs_eq : (i : ℕ)
      → (get_or h.slot i no_slot).buf_idx ≡ (get_or s.kring.ring.slot i no_slot).buf_idx) where
  entered-bufs : HasBuffers env h.slot s.kring.nkr_num_slots
  entered-bufs i lt e =
      o.bufs i lt (ap (λ (t : AddrTblItem). t.vaddr) (sym (buf_vpa-same env _ _ (bufs_eq i))) ∙ e)

  pub entered : Received env m s (clear_pending (enter_harvest s h))
  unfolding clear_pending enter_harvest
  entered = elim (Bool-cases (h.count == 0)) [
    | inl z ↦
        let none_new : m ≡ 0 = sym count_eq ∙ (==_iff _ _).0 z in
        rw z (record {
          sound = record {
            mapped = record {
              some_slots = o.mapped.some_slots;
              small = o.mapped.small;
              offset_in = o.mapped.offset_in;
            };
            cur_in = o.cur_in;
            hwcur_in = o.hwcur_in;
            clean_in = o.clean_in;
            reserved_fits = o.reserved_fits;
            bufs = entered-bufs;
          };
          same_end = refl;
          same_released = refl;
          same_reserved = refl;
          same_size = refl;
          counted = omega (arith, none_new);
          clean =
              sym (mod-eq_of_lt o.clean_in)
              ∙ ap (λ t. t % s.kring.nkr_num_slots) (omega (arith, none_new));
          packets = ap u64 (omega (arith, none_new));
        })
    | inr z ↦ rw z (record {
      sound = record {
        mapped = record {
          some_slots = o.mapped.some_slots;
          small = o.mapped.small;
          offset_in = o.mapped.offset_in;
        };
        cur_in = o.cur_in;
        hwcur_in = o.hwcur_in;
        clean_in = rw n_eq (mod-lt _ o.mapped.some_slots);
        reserved_fits = o.reserved_fits;
        bufs = entered-bufs;
      };
      same_end = refl;
      same_released = refl;
      same_reserved = refl;
      same_size = refl;
      counted = omega (arith, count_eq);
      clean = n_eq;
      packets = omega (arith, count_eq);
    })
  ]
