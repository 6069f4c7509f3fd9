-- ===== src/Bnx2.antt =====
-- drivers/bnx2-2.1.11/bnx2_dpa.h: the bnx2 driver's part of the module, whose card has its ring in
-- pages of 256 entries, the last of which is a link to the next page. The card's writes are
-- arguments: the index that each reading of the status block finds, and the header that it put in
-- front of each packet. An `int` is its two's complement pattern, and a page has 4096 bytes.
pub mod Pages
pub mod Reaps
pub mod Counts
pub mod Config
use dpa.Prelude.{
  ℕ, zero, suc, ◌+◌, ◌-◌, ◌*◌, ◌/◌, ◌%◌, ◌^◌, List, Bool, true, false, not, ◌||◌, ◌&&◌, Option,
  none, some, bit_and, if◌then◌else◌, ◌==◌, leb, get_or, set,
}
use dpa.Prelude.Bits.{complement}
use dpa.Prelude.Word.{u16, u32, u64, add32, sub32, ltb_i32}
use dpa.Ring.{DpaSlot, no_slot, Kring, idx_n2k, idx_k2n}
use dpa.Ring.Reinit.{ring_reinit}
use dpa.Sync.{Env, buf_vpa, checked_reserved, release_to}

-- struct l2_fhdr, as used
pub record L2Fhdr : Type 0 where
  pub status : ℕ
  pub vlan_tag : ℕ
  pub pkt_len : ℕ

-- struct sw_bd and struct rx_bd of one entry; `desc` is the address of the buffer.
pub record RxBd : Type 0 where
  pub desc : ℕ
  pub mapping : ℕ
  pub haddr_hi : ℕ
  pub haddr_lo : ℕ

abbrev pub no_bd : RxBd
no_bd = record { desc = 0; mapping = 0; haddr_hi = 0; haddr_lo = 0 }

-- struct bnx2_rx_ring_info, as used; `bidx` is the card's register.
pub record RxRingInfo : Type 0 where
  pub bds : List RxBd
  pub rx_cons : ℕ
  pub rx_prod : ℕ
  pub rx_prod_bseq : ℕ
  pub bidx : ℕ

-- struct bnx2, as used
pub record Bnx2Dev : Type 0 where
  pub rx_ring_size : ℕ
  pub rx_max_ring_idx : ℕ
  pub rx_buf_use_size : ℕ
  pub rx_mode : ℕ

pub record BnxRx : Type 0 where
  pub kring : Kring
  pub nic : RxRingInfo

-- NEXT_RX_BD, kept in an uint16_t; RX_RING_IDX; RX_RING
unfoldable pub next_rx_bd : ℕ → ℕ
next_rx_bd x = u16 (if bit_and x 254 == 254 then x + 2 else x + 1)

unfoldable pub rx_ring_idx : Bnx2Dev → ℕ → ℕ
rx_ring_idx bp x = bit_and x bp.rx_max_ring_idx

unfoldable pub rx_ring : ℕ → ℕ
rx_ring x = bit_and x (complement 32 255) / 256

-- The locals of the loop over the entries that the card has filled; `reads` counts the readings.
pub record Reaped : Type 0 where
  pub slot : List DpaSlot
  pub k : ℕ
  pub i : ℕ
  pub bytes : ℕ
  pub sw_cons : ℕ
  pub hw_cons : ℕ
  pub reads : ℕ

unfoldable pub info_of : Bnx2Dev → L2Fhdr → ℕ
info_of bp d =
    if not (bit_and d.status 64 == 0) && (bit_and bp.rx_mode 1024 == 0)
    then bit_and d.vlan_tag 4095
    else 0

-- What the links that were passed add to the count.
unfoldable pub links : Bnx2Dev → ℕ → ℕ → ℕ → ℕ
links bp ibefore iend i =
    let pass_cycle = add32 (rx_ring bp.rx_ring_size) 1 in
    let passed =
      if ltb_i32 iend ibefore then sub32 (add32 pass_cycle iend) ibefore else sub32 iend ibefore in
    if (iend == ibefore) && leb 256 i then add32 passed pass_cycle else passed

module _ (bp : Bnx2Dev) (hw : ℕ → ℕ) (hdr : ℕ → L2Fhdr) where
  -- bnx2_get_hw_rx_cons, at its t-th call
  unfoldable pub get_hw_rx_cons : ℕ → ℕ
  get_hw_rx_cons t = if bit_and (hw t) 255 == 255 then u16 (hw t + 1) else hw t

  -- `sw_cons == hw_cons`, when the card's index is read again
  unfoldable pub read_again : Reaped → Reaped
  read_again h =
      if h.sw_cons == h.hw_cons
      then (record h { hw_cons = get_hw_rx_cons h.reads; reads = h.reads + 1 })
      else h

  -- One turn of the loop that copies a packet's length and VLAN id.
  unfoldable pub reap_one : RxRingInfo → Kring → Reaped → Reaped
  reap_one nic kr h =
      let d = hdr (get_or nic.bds (rx_ring_idx bp h.sw_cons) no_bd).desc in
      let len = (d.pkt_len + 2 ^ 16 - 4) % 2 ^ 16 in
      let next = next_rx_bd h.sw_cons in
      record h {
        slot =
            set h.slot h.k (record (get_or h.slot h.k no_slot) { len = len; info = info_of bp d });
        bytes = add32 h.bytes len;
        sw_cons = next;
        k = idx_n2k kr (rx_ring_idx bp next);
        i = add32 h.i 1;
      }

  -- `for (i = 0; i < bp->rx_ring_size; i++)`, with `f` of these turns to go
  unfoldable pub reap : ℕ → RxRingInfo → Kring → Reaped → Reaped
  reap zero nic kr h = h
  reap (suc f) nic kr h =
      let h' = read_again h in
      let rest = reap f nic kr (reap_one nic kr h') in
      if leb (sub32 bp.rx_ring_size 1) (add32 h.i kr.nr_hwavail)
      then h
      else if h'.sw_cons == h'.hw_cons
      then h'
      else rest

  -- What follows the loop.
  unfoldable pub enter_reaped : BnxRx → ℕ → Reaped → BnxRx
  enter_reaped s ibefore h =
      let kr = record (s.kring) {
        ring = record (s.kring.ring) { slot = h.slot };
        nr_kflags = bit_and s.kring.nr_kflags (complement 32 1);
      } in
      if h.i == 0 then record s { kring = kr } else record {
        kring = record kr {
          total_packets = u64 (kr.total_packets + h.i);
          total_bytes = u64 (kr.total_bytes + h.bytes);
          nr_hwavail = add32 (add32 kr.nr_hwavail h.i) (links bp ibefore (rx_ring h.k) h.i);
        };
        nic = record (s.nic) { rx_cons = h.sw_cons };
      }

  -- The first half of bnx2_dpa_rx_sync
  unfoldable pub reap_all : BnxRx → BnxRx
  reap_all s =
      let k = idx_n2k s.kring (rx_ring_idx bp s.nic.rx_cons) in
      enter_reaped s (rx_ring k) (
        reap bp.rx_ring_size s.nic s.kring (record {
          slot = s.kring.ring.slot;
          k = k;
          i = 0;
          bytes = 0;
          sw_cons = s.nic.rx_cons;
          hw_cons = get_hw_rx_cons 0;
          reads = 1;
        }))

-- How the loop over the released slots ends.
pub data Returned : Type 0 where
  bad_slot : Returned
  returned : ℕ → ℕ → Returned

-- `for (j = 0; k != u; j++)`; `none` is a loop that does not end within its fuel.
unfoldable pub give_back : Env → Bnx2Dev → Kring → ℕ → ℕ → ℕ → ℕ → ℕ → Option Returned
give_back env bp kr u zero k sw_prod j = none
give_back env bp kr u (suc f) k sw_prod j =
    let k' = if k == bp.rx_max_ring_idx then 0 else add32 k 1 in
    let prod = if bit_and (idx_k2n kr k') 255 == 255 then sw_prod else next_rx_bd sw_prod in
    let rest = give_back env bp kr u f k' prod (add32 j 1) in
    if k == u
    then some (returned sw_prod j)
    else if (buf_vpa env (get_or kr.ring.slot k no_slot)).vaddr == env.buffer_base
    then some bad_slot
    else rest

unfoldable pub publish_reaped : BnxRx → ℕ → BnxRx
publish_reaped s resvd = record s {
  kring = record (s.kring) {
    ring = record (s.kring.ring) { avail = sub32 s.kring.nr_hwavail resvd };
  };
}

unfoldable pub after_give_back : Env → BnxRx → ℕ → ℕ → Option Returned → Option (BnxRx × ℕ)
after_give_back env s u resvd none = none
after_give_back env s u resvd (some bad_slot) =
    let (kr, r) = ring_reinit env.total_buffers env.buf_size s.kring false in
    some (record s { kring = kr }, r)
after_give_back env s u resvd (some (returned prod j)) = some (
  publish_reaped
      (record {
        kring = record (s.kring) { nr_hwavail = sub32 s.kring.nr_hwavail j; nr_hwcur = u };
        nic = record (s.nic) { rx_prod = prod; bidx = prod };
      })
      resvd,
  0,
)

-- The second half of bnx2_dpa_rx_sync
unfoldable pub give_back_all : Env → Bnx2Dev → BnxRx → Option (BnxRx × ℕ)
give_back_all env bp s =
    let resvd = checked_reserved s.kring in
    let u = release_to s.kring resvd in
    let kr = record (s.kring) { ring = record (s.kring.ring) { reserved = resvd } } in
    let s' = record s { kring = kr } in
    if kr.nr_hwcur == u
    then some (publish_reaped s' resvd, 0)
    else after_give_back env s' u resvd
        (give_back env bp kr u (kr.nkr_num_slots + 1) kr.nr_hwcur s.nic.rx_prod 0)

-- bnx2_dpa_rx_sync, with what it returns
unfoldable pub rx_sync : Env → Bnx2Dev → (ℕ → ℕ) → (ℕ → L2Fhdr) → Bool → BnxRx → Option (BnxRx × ℕ)
rx_sync env bp hw hdr do_lock s =
    let force_update = do_lock || not (bit_and s.kring.nr_kflags 1 == 0) in
    let (kr, r) = ring_reinit env.total_buffers env.buf_size s.kring true in
    let ring = record (s.kring.ring) { hw_ofs = s.kring.nkr_hwofs } in
    let s' = record s { kring = record (s.kring) { ring = ring } } in
    if not env.carrier_ok
    then some (s, 0)
    else if leb s.kring.nkr_num_slots s.kring.ring.cur
    then some (record s { kring = kr }, r)
    else if not env.pend_intr || force_update
    then give_back_all env bp (reap_all bp hw hdr s')
    else give_back_all env bp s'
