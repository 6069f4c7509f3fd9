-- ===== src/Stats.antt =====
-- The drivers' callback get_rx_stats (drivers/igb-3.0.6/igb_dpa.h, drivers/ixgbe-3.4.8/ixgbe_dpa.h,
-- drivers/bnx2-2.1.11/bnx2_dpa.h), on the structure that dpa_ioctl hands on. What the card has
-- counted is an argument; the time stamp is left out.
pub mod Totals
pub mod Summed
mod Tests
use dpa.Prelude.{
  ℕ, zero, suc, ◌+◌, ◌-◌, ◌%◌, ◌^◌, Bool, true, false, not, ◌||◌, Option, none, some, bit_and,
  if◌then◌else◌, ◌==◌, leb, get_or,
}
use dpa.Prelude.Word.{u64}
use dpa.Netdev.{DpaAdapter, NetDev, no_rx_ring}
use dpa.Entry.Ioctl.{IocPara}

-- netif_carrier_ok, and netdev->stats.rx_missed_errors and rx_errors once they are brought up to date
pub record CardStats : Type 0 where
  pub carrier_ok : Bool
  pub missed : ℕ
  pub bad : ℕ

abbrev pub has : IocPara → ℕ → Bool
has para flag = not (bit_and para.word1 flag == 0)

-- `qbegin` and the number of rings from there, or the return of 1
unfoldable pub stats_range : DpaAdapter → IocPara → Option (ℕ × ℕ)
stats_range dadp para =
    let queue_id = bit_and para.word0 4095 in
    if not (bit_and para.word0 4096 == 0)
    then some (0, dadp.num_rx_rings)
    else if has para 4 || has para 8
    then none
    else if leb dadp.num_rx_rings queue_id
    then none
    else some (queue_id, 1)

-- The loop over the rings, n of them from ring i on
unfoldable pub add_ring : DpaAdapter → ℕ → IocPara → IocPara
add_ring dadp i para =
    let kr = (get_or dadp.rx_rings i no_rx_ring).kring in
    record para {
      packets = if has para 1 then u64 (para.packets + kr.total_packets) else para.packets;
      bytes = if has para 2 then u64 (para.bytes + kr.total_bytes) else para.bytes;
    }

unfoldable pub add_rings : DpaAdapter → ℕ → ℕ → IocPara → IocPara
add_rings dadp zero i para = para
add_rings dadp (suc n) i para = add_rings dadp n (i + 1) (add_ring dadp i para)

unfoldable pub with_card : CardStats → IocPara → IocPara
with_card card para = record para {
  drops = if has para 4 then card.missed else para.drops;
  errors = if has para 8 then card.bad else para.errors;
}

unfoldable pub stats_in : CardStats → DpaAdapter → IocPara → Option (ℕ × ℕ) → IocPara × Bool
stats_in card dadp para none = (para, false)
stats_in card dadp para (some (i, n)) =
    if card.carrier_ok then (with_card card (add_rings dadp n i para), true) else (para, false)

-- igb_dpa_get_rx_stats: the structure, and whether it returns 0
unfoldable pub igb_get_rx_stats : CardStats → NetDev → IocPara → IocPara × Bool
igb_get_rx_stats card d para = stats_in card d.adapter para (stats_range d.adapter para)

-- ixgbe_dpa_get_rx_stats, which is the same code
unfoldable pub ixgbe_get_rx_stats : CardStats → NetDev → IocPara → IocPara × Bool
unfolding igb_get_rx_stats
ixgbe_get_rx_stats = igb_get_rx_stats

-- The counters of the bnx2 card, each the sum of two of 32 bits
pub record BnxStats : Type 0 where
  pub carrier_ok : Bool
  pub ftq_discards : ℕ
  pub mbuf_discards : ℕ
  pub fw_rx_drop : ℕ
  pub alignment_errors : ℕ
  pub fcs_errors : ℕ

-- bnx2_dpa_get_rx_stats
unfoldable pub bnx2_get_rx_stats : BnxStats → NetDev → IocPara → IocPara × Bool
unfolding igb_get_rx_stats
bnx2_get_rx_stats card = igb_get_rx_stats (record {
  carrier_ok = card.carrier_ok;
  missed = u64 (card.ftq_discards + card.mbuf_discards + card.fw_rx_drop);
  bad = u64 (card.alignment_errors + card.fcs_errors);
})
