-- ===== src/Sync.antt =====
-- drivers/igb-3.0.6/igb_dpa.h, igb_dpa_rx_sync: packets that the card has written are counted into
-- the kernel's ring, and slots that the process has released are given back to the card.
-- DPA_PACKET_TYPE_UPDATE is not defined by the build, so `info` is the VLAN id. The result `none`
-- is a loop that does not end within its fuel.
pub mod Harvested
pub mod Released
pub mod Counts
pub mod Turn
pub mod Endless
mod Tests
use dpa.Prelude.{
  ℕ, zero, suc, ◌+◌, ◌-◌, ◌*◌, ◌%◌, ◌^◌, List, [], ◌∷◌, Bool, true, false, not, ◌||◌, ◌&&◌, Option,
  none, some, bit_and, if◌then◌else◌, ◌==◌, ltb, leb, get_or, set,
}
use dpa.Prelude.Bits.{complement}
use dpa.Prelude.Word.{u32, u64, add32, sub32, ltb_i32}
use dpa.Pool.{AddrTblItem, no_item}
use dpa.Ring.{DpaSlot, no_slot, DpaRing, Kring, idx_n2k, idx_k2n}
use dpa.Ring.Reinit.{ring_reinit}

-- union e1000_adv_rx_desc, in host byte order: as written back by the card, and the address that
-- the driver puts in.
pub record RxDesc : Type 0 where
  pub status_error : ℕ
  pub length : ℕ
  pub vlan : ℕ
  pub pkt_addr : ℕ

abbrev pub no_desc : RxDesc
no_desc = record { status_error = 0; length = 0; vlan = 0; pkt_addr = 0 }

-- The part of struct igb_ring that is used; `tail` is the card's register.
pub record NicRing : Type 0 where
  pub desc : List RxDesc
  pub next_to_clean : ℕ
  pub next_to_use : ℕ
  pub tail : ℕ
  pub nic_packets : ℕ
  pub nic_bytes : ℕ

-- The module's variables dpa_pend_intr, dpa_total_buffers, dpa_buf_size, dpa_buffer_base and
-- dpa_buffer_atbl, and whether the card has a carrier.
pub record Env : Type 0 where
  pub carrier_ok : Bool
  pub pend_intr : Bool
  pub total_buffers : ℕ
  pub buf_size : ℕ
  pub buffer_base : ℕ
  pub atbl : List AddrTblItem

pub record Rx : Type 0 where
  pub kring : Kring
  pub nic : NicRing

-- `(x == num_slots) ? 0 : x + 1`
unfoldable pub next_slot : ℕ → ℕ → ℕ
next_slot num_slots x = if x == num_slots then 0 else add32 x 1

unfoldable pub is_done : RxDesc → Bool
is_done d = not (bit_and d.status_error 1 == 0)

unfoldable pub vlan_info : RxDesc → ℕ
vlan_info d = if bit_and d.status_error 8 == 0 then 0 else bit_and d.vlan 4095

-- The locals of the loop over the finished descriptors.
pub record Harvest : Type 0 where
  pub slot : List DpaSlot
  pub k : ℕ
  pub n : ℕ
  pub count : ℕ
  pub total : ℕ

-- One turn of the loop over the finished descriptors.
unfoldable pub harvest_one : List RxDesc → ℕ → Harvest → Harvest
harvest_one desc num_slots h =
    let d = get_or desc h.n no_desc in
    let old = get_or h.slot h.k no_slot in
    record {
      slot = set h.slot h.k (record old { len = d.length; info = vlan_info d });
      k = next_slot num_slots h.k;
      n = next_slot num_slots h.n;
      count = add32 h.count 1;
      total = add32 h.total d.length;
    }

unfoldable pub harvest : ℕ → List RxDesc → ℕ → Harvest → Option Harvest
harvest zero desc num_slots h = none
harvest (suc f) desc num_slots h =
    let rest = harvest f desc num_slots (harvest_one desc num_slots h) in
    if is_done (get_or desc h.n no_desc) then rest else some h

-- What follows that loop, which counts only if it found anything.
unfoldable pub enter_harvest : Rx → Harvest → Rx
enter_harvest s h =
    let ring = record (s.kring.ring) { slot = h.slot } in
    if h.count == 0 then record s { kring = record (s.kring) { ring = ring } } else record {
      kring = record (s.kring) {
        ring = ring;
        total_packets = u64 (s.kring.total_packets + h.count);
        total_bytes = u64 (s.kring.total_bytes + h.total);
        nr_hwavail = add32 s.kring.nr_hwavail h.count;
      };
      nic = record (s.nic) {
        nic_packets = u64 (s.nic.nic_packets + h.count);
        nic_bytes = u64 (s.nic.nic_bytes + h.total);
        next_to_clean = h.n;
      };
    }

-- `kring->nr_kflags &= ~DPA_KR_PEND_INTR`
unfoldable pub clear_pending : Rx → Rx
clear_pending s = record s {
  kring = record (s.kring) { nr_kflags = bit_and s.kring.nr_kflags (complement 32 1) };
}

abbrev pub harvested : Rx → Option Harvest → Option Rx
harvested s none = none
harvested s (some h) = some (clear_pending (enter_harvest s h))

-- The first half: packets that the card has finished.
unfoldable pub receive : Rx → Option Rx
receive s =
    let start : Harvest = record {
      slot = s.kring.ring.slot;
      k = idx_n2k s.kring s.nic.next_to_clean;
      n = s.nic.next_to_clean;
      count = 0;
      total = 0;
    } in
    harvested s
      (harvest (s.kring.nkr_num_slots + 1) s.nic.desc (sub32 s.kring.nkr_num_slots 1) start)

-- BUF_VPA: the two addresses of a slot's buffer.
unfoldable pub buf_vpa : Env → DpaSlot → AddrTblItem
buf_vpa env s = get_or env.atbl (if leb env.total_buffers s.buf_idx then 0 else s.buf_idx) no_item

-- How the loop over the released slots ends: at a slot without a buffer, or with all descriptors
-- refilled, and then with its locals `n` and `i`.
pub data Refill : Type 0 where
  bad_buffer : List RxDesc → Refill
  refilled : List RxDesc → ℕ → ℕ → Refill

-- `for (i = 0; k != u; i++)`
unfoldable pub refill : Env → List DpaSlot → ℕ → ℕ → ℕ → List RxDesc → ℕ → ℕ → ℕ → Option Refill
refill env slot num_slots u zero desc k n i = none
refill env slot num_slots u (suc f) desc k n i =
    let item = buf_vpa env (get_or slot k no_slot) in
    let old = get_or desc n no_desc in
    let fresh = record old { status_error = 0; pkt_addr = item.paddr } in
    let rest =
      refill env slot num_slots u f (set desc n fresh) (next_slot num_slots k)
        (next_slot num_slots n) (add32 i 1) in
    if k == u
    then some (refilled desc n i)
    else if item.vaddr == env.buffer_base
    then some (bad_buffer desc)
    else rest

-- `ring->avail = kring->nr_hwavail - resvd`
unfoldable pub publish_avail : Rx → ℕ → Rx
publish_avail s resvd = record s {
  kring = record (s.kring) {
    ring = record (s.kring.ring) { avail = sub32 s.kring.nr_hwavail resvd };
  };
}

-- After the loop: the counters, and the card's tail one slot behind.
unfoldable pub after_refill : Env → Rx → ℕ → ℕ → Refill → Rx × ℕ
after_refill env s u resvd (bad_buffer desc) =
    let (kr, r) = ring_reinit env.total_buffers env.buf_size s.kring false in
    (record { kring = kr; nic = record (s.nic) { desc = desc } }, r)
after_refill env s u resvd (refilled desc n i) = (
  publish_avail
      (record {
        kring = record (s.kring) { nr_hwavail = sub32 s.kring.nr_hwavail i; nr_hwcur = u };
        nic = record (s.nic) {
          desc = desc;
          next_to_use = n;
          tail = if n == 0 then sub32 s.kring.nkr_num_slots 1 else sub32 n 1;
        };
      })
      resvd,
  0,
)

-- `resvd` and `u` after the test of what the process reserved.
unfoldable pub checked_reserved : Kring → ℕ
checked_reserved kr =
    let r = kr.ring.reserved in
    if r == 0 then 0 else if leb kr.nkr_num_slots (add32 r kr.ring.avail) then 0 else r

unfoldable pub release_to : Kring → ℕ → ℕ
release_to kr resvd =
    let u = kr.ring.cur in
    if leb resvd u then sub32 u resvd else sub32 (add32 u kr.nkr_num_slots) resvd

abbrev pub finish_refill : Env → Rx → ℕ → ℕ → Option Refill → Option (Rx × ℕ)
finish_refill env s u resvd none = none
finish_refill env s u resvd (some end) = some (after_refill env s u resvd end)

-- The second half: slots that the process has released; `u` is where they end.
unfoldable pub release_slots : Env → Rx → Option (Rx × ℕ)
release_slots env s =
    let resvd = checked_reserved s.kring in
    let u = release_to s.kring resvd in
    let ring = record (s.kring.ring) { reserved = resvd } in
    let s' = record s { kring = record (s.kring) { ring = ring } } in
    let k = s.kring.nr_hwcur in
    if k == u
    then some (publish_avail s' resvd, 0)
    else finish_refill env s' u resvd (
        refill env ring.slot (sub32 s.kring.nkr_num_slots 1) u (s.kring.nkr_num_slots + 1)
          s.nic.desc k (idx_k2n s.kring k) 0)

abbrev pub then_release : Env → Option Rx → Option (Rx × ℕ)
then_release env none = none
then_release env (some s) = release_slots env s

-- igb_dpa_rx_sync, with what it returns.
unfoldable pub rx_sync : Env → Bool → Rx → Option (Rx × ℕ)
rx_sync env do_lock s =
    let force_update = do_lock || not (bit_and s.kring.nr_kflags 1 == 0) in
    let (kr, r) = ring_reinit env.total_buffers env.buf_size s.kring true in
    if not env.carrier_ok
    then some (s, 0)
    else if leb s.kring.nkr_num_slots s.kring.ring.cur
    then some (record s { kring = kr }, r)
    else if not env.pend_intr || force_update
    then then_release env (receive s)
    else release_slots env s
