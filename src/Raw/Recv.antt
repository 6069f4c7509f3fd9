-- ===== src/Raw/Recv.antt =====
-- What one turn of raw_recv_proc_intel and raw_recv_proc_bnx2 (lib/raw_intf.c) hands to the
-- callback, and which queue ids raw_get_rx_stats refuses.
use dpa.Prelude.{
  ℕ, zero, suc, ◌+◌, ◌-◌, ◌%◌, ◌^◌, ◌≤◌, ◌<◌, ◌≡◌, ◌≢◌, ◌↔◌, List, [], ◌∷◌, true, not, ap, sym, ◌∙◌,
  arith, min, if_true, ne→==_false,
}
use native.Mathlib.Nat.{mod-lt, mod-eq_of_lt, add-zero}
use dpa.Prelude.Bits.{bit_and-low_mask}
use dpa.Prelude.Mod.{advance_twice}
use dpa.Prelude.Word.{sub32}
use dpa.Ring.{DpaRing}
use dpa.Ring.Index.{ring_next-eq}
use dpa.Window.{window}
use dpa.Raw.{recv_slots, recv_turn, pkt_per_process, is_bad_queue}

-- A function run on each index of a list in order.
abbrev pub run_each : {U : Type 0} → (ℕ → U → U) → List ℕ → U → U
run_each body [] u = u
run_each body (i ∷ is) u = run_each body is (body i u)

abbrev pub same_index : ℕ → ℕ
same_index i = i

recv_slots-run_each :
    {U : Type 0} (ring : DpaRing) (body : ℕ → U → U) (n cur : ℕ) (u : U)
    → ring.num_slots < 2 ^ 32
    → cur < ring.num_slots
    → recv_slots ring body n cur u
      ≡ ((cur + n) % ring.num_slots, run_each body (window same_index ring.num_slots cur n) u)
unfolding recv_slots window
recv_slots-run_each ring body zero cur u small inside =
    ap (λ c. (c, u)) (sym (rw add-zero (mod-eq_of_lt inside)))
recv_slots-run_each ring body (suc n) cur u small inside =
    let next = ring_next-eq ring cur small inside in
    ap (λ c. recv_slots ring body n c (body cur u)) next
    ∙ recv_slots-run_each ring body n ((cur + 1) % ring.num_slots) (body cur u) small
        (mod-lt _ (omega arith))
    ∙ ap
        (λ c. (
          c,
          run_each body (window same_index ring.num_slots ((cur + 1) % ring.num_slots) n)
              (body cur u),
        ))
        (advance_twice cur 1 n ring.num_slots ∙ ap (λ t. (cur + t) % ring.num_slots) (omega arith))

-- One turn that finds packets takes min(avail, 2048) slots in the order of the ring, from `cur` on
-- and round its end, and runs the driver's body once on each of them; `avail` and `cur` move by as
-- many.
pub recv_turn-run_each :
    {U : Type 0} (body : DpaRing → ℕ → U → U) (ring : DpaRing) (u : U)
    → ring.num_slots < 2 ^ 32
    → ring.cur < ring.num_slots
    → ring.avail ≢ 0
    → ring.avail < 2 ^ 32
    → let n = min ring.avail pkt_per_process in
      recv_turn body true ring u ≡ (
        record ring { avail = ring.avail - n; cur = (ring.cur + n) % ring.num_slots },
        run_each (body ring) (window same_index ring.num_slots ring.cur n) u,
      )
unfolding recv_turn
recv_turn-run_each body ring u small inside some_avail avail_small =
    let n = min ring.avail pkt_per_process in
    let slots = recv_slots-run_each ring (body ring) n ring.cur u small inside in
    let left : sub32 ring.avail n ≡ ring.avail - n = omega (arith, avail_small) in
    if_true _ _ _ (ap not (ne→==_false ring.avail 0 some_avail)) ∙ λ i.
    (record ring { avail = left i; cur = (slots i).0 }, (slots i).1)

-- For an interface of at most 4095 queues, raw_get_rx_stats refuses exactly the odd queue ids,
-- however many queues there are.
is_bad_queue-odd :
    (queue_id num_queues : ℕ)
    → num_queues ≤ 4095
    → (is_bad_queue queue_id num_queues ≡ true) ↔ (queue_id % 2 ≡ 1)
unfolding is_bad_queue
is_bad_queue-odd queue_id num_queues few = ground (arith, bit_and-low_mask 1 queue_id)
