-- ===== src/Intel/Armed.antt =====
-- A ring of the igb driver after a reset (drivers/igb-3.0.6/igb_dpa.h, igb_dpa_conf_rx_ring).
use dpa.Prelude.{
  ℕ, zero, suc, ◌+◌, ◌-◌, ◌%◌, ◌^◌, ◌≤◌, ◌<◌, ◌≡◌, List, Bool, true, not, if◌then◌else◌, Option,
  none, some, get_or, set, refl, ap, sym, ◌∙◌, arith, subst, length, length-set, get_or-set_self,
  get_or-set_ne,
}
use native.Mathlib.Nat.{zero-add}
use dpa.Prelude.Mod.{mod_cases}
use dpa.Prelude.Word.{sub32, ltb_i32}
use dpa.Ring.Index.{IsMapped, idx_n2k-eq}
use dpa.Ring.{DpaSlot, no_slot, Kring, idx_n2k}
use dpa.Netdev.{NetDev, RxRing, no_rx_ring, reset, reset_ofs}
use dpa.Sync.{RxDesc, no_desc, NicRing, Env, buf_vpa}
use dpa.Intel.{igb_conf_descs, igb_conf_slots, igb_conf_rx_ring}

module _ (env : Env) (kr : Kring) (slots : List DpaSlot) where
  -- A descriptor of the card with the buffer of slot idx_n2k i, and nothing received
  abbrev pub fresh : ℕ → RxDesc
  fresh i = record {
    status_error = 0;
    length = 0;
    vlan = 0;
    pkt_addr = (buf_vpa env (get_or slots (idx_n2k kr i) no_slot)).paddr;
  }

  conf-below :
      (n i j : ℕ) (descs : List RxDesc)
      → j < i
      → get_or (igb_conf_descs env kr slots n i descs) j no_desc ≡ get_or descs j no_desc
  unfolding igb_conf_descs
  conf-below zero i j descs lt = refl
  conf-below (suc n) i j descs lt =
      conf-below n (i + 1) j (set descs i (fresh i)) (omega (arith, lt))
      ∙ get_or-set_ne descs i j (fresh i) no_desc (λ e. omega (arith, e, lt))

  pub conf-fresh :
      (n i j : ℕ) (descs : List RxDesc)
      → i + n ≤ length descs
      → j < n
      → get_or (igb_conf_descs env kr slots n i descs) (i + j) no_desc ≡ fresh (i + j)
  unfolding igb_conf_descs
  conf-fresh zero i j descs fits lt = elim lt [ ]
  conf-fresh (suc n) i zero descs fits lt =
      let here : i + 0 ≡ i = omega arith in
      subst
        (λ t.
          get_or (igb_conf_descs env kr slots n (i + 1) (set descs i (fresh i))) t no_desc
          ≡ fresh t)
        (sym here)
        (conf-below n (i + 1) i (set descs i (fresh i)) (omega arith)
          ∙ get_or-set_self descs i (fresh i) no_desc (omega (arith, fits)))
  conf-fresh (suc n) i (suc j) descs fits lt =
      let there : i + 1 + j ≡ i + suc j = omega arith in
      subst
        (λ t.
          get_or (igb_conf_descs env kr slots n (i + 1) (set descs i (fresh i))) t no_desc
          ≡ fresh t)
        there
        (conf-fresh n (i + 1) j (set descs i (fresh i))
          (omega (arith, fits, length-set descs i (fresh i))) (omega (arith, lt)))

around :
    (size cur n i : ℕ)
    → cur < size
    → n + i < size
    → ((i + (cur + n) % size) % size + size - cur) % size ≡ n + i
around size cur n i a b = ground (
  arith,
  mod_cases (cur + n) size,
  mod_cases (i + (cur + n) % size) size,
  mod_cases ((i + (cur + n) % size) % size + size - cur) size,
)

reset_ofs-eq :
    (kr : Kring)
    → kr.nkr_num_slots ≤ 2 ^ 29
    → kr.nr_hwcur < kr.nkr_num_slots
    → kr.nr_hwavail < kr.nkr_num_slots
    → reset_ofs kr 0 ≡ (kr.nr_hwcur + kr.nr_hwavail) % kr.nkr_num_slots
unfolding reset_ofs ltb_i32
reset_ofs-eq kr small a b = ground (arith, mod_cases (kr.nr_hwcur + kr.nr_hwavail) kr.nkr_num_slots)

-- How far past `nr_hwcur` the kernel's index of the card's descriptor i is after a reset
reset_ofs-advance :
    (kr : Kring) (i : ℕ)
    → kr.nkr_num_slots ≤ 2 ^ 29
    → kr.nr_hwcur < kr.nkr_num_slots
    → kr.nr_hwavail + i < kr.nkr_num_slots
    → (idx_n2k (record kr { nkr_hwofs = reset_ofs kr 0 }) i + kr.nkr_num_slots - kr.nr_hwcur)
        % kr.nkr_num_slots
      ≡ kr.nr_hwavail + i
reset_ofs-advance kr i small a b =
    let size = kr.nkr_num_slots in
    let ofs = reset_ofs-eq kr small a (omega (arith, b)) in
    let mapped : IsMapped (record kr { nkr_hwofs = reset_ofs kr 0 }) = record {
      some_slots = omega (arith, b);
      small = omega (arith, small);
      offset_in = ground (arith, ofs, mod_cases (kr.nr_hwcur + kr.nr_hwavail) size);
    } in
    let at = idx_n2k-eq i mapped (omega (arith, b)) ∙ ap (λ t. (i + t) % size) ofs in
    ap (λ t. (t + size - kr.nr_hwcur) % size) at ∙ around size kr.nr_hwcur kr.nr_hwavail i a b

abbrev pub ring_of : NetDev → ℕ → Kring
ring_of d i = (get_or d.adapter.rx_rings i no_rx_ring).kring

-- The ring with the offset that dpa_reset gives it
abbrev pub moved : Kring → Kring
moved kr = record kr { nkr_hwofs = reset_ofs kr 0 }

reset-moved :
    (d : NetDev) (i : ℕ)
    → d.enabled ≡ true
    → i < length d.adapter.rx_rings
    → (d' : NetDev) × (reset d i 0 ≡ (d', some (ring_of d i).ring.slot))
      × (ring_of d' i ≡ moved (ring_of d i))
unfolding reset
reset-moved d i on inside =
    let r = get_or d.adapter.rx_rings i no_rx_ring in
    let r' = record r { kring = moved r.kring } in
    let d' = record d { adapter = record (d.adapter) { rx_rings = set d.adapter.rx_rings i r' } } in
    let outcome : Bool → NetDev × Option (List DpaSlot) =
      λ b. if not b then (d, none) else (d', some r.kring.ring.slot) in
    (
      d',
      ap outcome on,
      ap (λ (x : RxRing). x.kring) (get_or-set_self d.adapter.rx_rings i r' no_rx_ring inside),
    )

-- What igb_dpa_conf_rx_ring comes to
pub record IsFree (env : Env) (count : ℕ) (kr : Kring) (i : ℕ) (r : NetDev × NicRing × Bool)
    : Type 0 where
  pub done : r.2 ≡ true
  pub tail : r.1.tail + kr.nr_hwavail + 1 ≡ count
  pub desc : get_or r.1.desc i no_desc ≡ fresh env (moved kr) kr.ring.slot i
  pub past : (idx_n2k (moved kr) i + count - kr.nr_hwcur) % count ≡ kr.nr_hwavail + i

-- On an interface that is switched to the module, a ring of the igb driver with as many descriptors as
-- the kernel's ring has slots: igb_dpa_conf_rx_ring returns 1, and the card owns the descriptors below
-- its tail, one fewer than all less those that are counted. Each of them is empty and has the buffer
-- of its slot in the kernel's ring, and that slot lies past the counted ones, so that no packet that
-- the process may still hold is written over.
pub igb_conf_rx_ring-IsFree :
    (env : Env) (count : ℕ) (d : NetDev) (reg_idx i : ℕ) (nic : NicRing)
    → let kr = ring_of d reg_idx in
      d.enabled ≡ true
      → reg_idx < length d.adapter.rx_rings
      → kr.nkr_num_slots ≡ count
      → count ≤ 2 ^ 29
      → length nic.desc ≡ count
      → kr.nr_hwcur < count
      → i + kr.nr_hwavail + 1 < count
      → IsFree env count kr i (igb_conf_rx_ring env count d reg_idx nic)
unfolding igb_conf_rx_ring igb_conf_slots
igb_conf_rx_ring-IsFree env count d reg_idx i nic on inside size small full cur owned =
    let kr = ring_of d reg_idx in
    let (d', e, same) = reset-moved d reg_idx on inside in
    let result : Kring → NetDev × NicRing × Bool = λ k. (
      d',
      record nic {
        desc = igb_conf_descs env k kr.ring.slot count 0 nic.desc;
        next_to_use = 0;
        tail = sub32 (sub32 count 1) k.nr_hwavail;
      },
      true,
    ) in
    subst (λ t. IsFree env count kr i (igb_conf_slots env count reg_idx nic t)) (sym e)
      (subst (λ k. IsFree env count kr i (result k)) (sym same)
        (record {
          done = refl;
          tail = omega (arith, small, owned);
          desc =
              subst
                (λ t.
                  get_or (igb_conf_descs env (moved kr) kr.ring.slot count 0 nic.desc) t no_desc
                  ≡ fresh env (moved kr) kr.ring.slot t)
                (zero-add i)
                (conf-fresh env (moved kr) kr.ring.slot count 0 i nic.desc (omega (arith, full))
                  (omega (arith, owned)));
          past =
              subst (λ n. (idx_n2k (moved kr) i + n - kr.nr_hwcur) % n ≡ kr.nr_hwavail + i) size
                (reset_ofs-advance kr i (omega (arith, size, small)) (omega (arith, size, cur))
                  (omega (arith, size, owned)));
        }))
