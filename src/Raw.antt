-- ===== src/Raw.antt =====
-- lib/raw_intf.c: a process reads the kernel's ring without the duplicator. What the callback does
-- is a function of a state of the caller's; what poll and ioctl return is an argument.
pub mod Recv
mod Tests
use dpa.Prelude.{
  ℕ, zero, suc, ◌+◌, ◌-◌, ◌%◌, ◌^◌, ◌≤◌, ◌<◌, ◌≡◌, ◌↔◌, List, Bool, true, false, not, ◌&&◌, Option,
  none, some, bit_and, if◌then◌else◌, ◌==◌, ltb, leb, get_or, min, arith,
}
use dpa.Prelude.Word.{add32, sub32}
use dpa.Ring.{DpaSlot, DpaRing, no_slot, ring_next}
use dpa.Forward.Batch.{is_page_end}

abbrev pub pkt_per_process : ℕ
pkt_per_process = 2048

-- The arguments of a call of the callback: a length, the info, and a buffer with an offset.
pub record Call : Type 0 where
  pub len : ℕ
  pub info : ℕ
  pub buf_idx : ℕ
  pub offs : ℕ

unfoldable pub call_of : ℕ → DpaSlot → Call
call_of offs s = record { len = s.len; info = s.info; buf_idx = s.buf_idx; offs = offs }

module _ {U : Type 0} (callback : Call → U → U) where
  -- The bodies of the loops over the slots, at index `cur`.
  unfoldable pub recv_intel : DpaRing → ℕ → U → U
  recv_intel ring cur u = callback (call_of 0 (get_or ring.slot cur no_slot)) u

  unfoldable pub recv_bnx2 : DpaRing → ℕ → U → U
  recv_bnx2 ring cur u =
      if is_page_end ring cur then u else callback (call_of 18 (get_or ring.slot cur no_slot)) u

-- `for (rx = 0; rx < num_proc; rx++)`, with n slots to go.
unfoldable pub recv_slots : {U : Type 0} → DpaRing → (ℕ → U → U) → ℕ → ℕ → U → ℕ × U
recv_slots ring body zero cur u = (cur, u)
recv_slots ring body (suc n) cur u = recv_slots ring body n (ring_next ring cur) (body cur u)

-- One turn of `while (1)` of raw_recv_proc_intel and raw_recv_proc_bnx2.
unfoldable pub recv_turn : {U : Type 0} → (DpaRing → ℕ → U → U) → Bool → DpaRing → U → DpaRing × U
recv_turn body polled ring u =
    let n = min ring.avail pkt_per_process in
    let end_ = recv_slots ring (body ring) n ring.cur u in
    if polled && not (ring.avail == 0)
    then (record ring { avail = sub32 ring.avail n; cur = end_.0 }, end_.1)
    else (ring, u)

-- The handle dpa_t, as far as the functions below read it.
pub record Dpa : Type 0 where
  pub fd_open : Bool
  pub num_queues : ℕ

-- dpa_stats_t
pub record DpaStats : Type 0 where
  pub enabled : ℕ
  pub packets : ℕ
  pub bytes : ℕ
  pub drops : ℕ
  pub errors : ℕ

-- `queue_id & DPA_RING_ID_MASK >= dpa_info->num_queues`, in which `>=` binds tighter than `&`.
unfoldable pub is_bad_queue : ℕ → ℕ → Bool
is_bad_queue queue_id num_queues =
    not (bit_and queue_id (if leb num_queues 4095 then 1 else 0) == 0)

-- raw_get_rx_stats, with what DIOCGETRXSTATS gives for the queue id that is passed on.
unfoldable pub raw_get_rx_stats : Dpa → (ℕ → Option DpaStats) → ℕ → DpaStats → DpaStats × ℕ
raw_get_rx_stats dpa_info ioctl queue_id stats =
    if not dpa_info.fd_open
    then (stats, 8)
    else if is_bad_queue queue_id dpa_info.num_queues
    then (stats, 6)
    else elim (ioctl queue_id) [ none ↦ (stats, 19) | some found ↦ (found, 0) ]
