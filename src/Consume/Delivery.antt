-- ===== src/Consume/Delivery.antt =====
-- What a turn of dup_loop (lib/dup_intf.c) hands to the callback, and what a packet's way through
-- the duplicator's queue comes to.
use dpa.Prelude.{
  ℕ, zero, suc, ◌+◌, ◌%◌, ◌<◌, ◌≡◌, List, [], ◌∷◌, inl, inr, refl, ap, sym, ◌∙◌, arith, length,
  ◌==◌, ==_iff, Bool-cases,
}
use native.Mathlib.Nat.{mod-lt, mod-eq_of_lt, add-zero}
use dpa.Prelude.Mod.{advance_twice}
use dpa.Window.{window, length-window}
use dpa.Queue.{DupQueue, IsReady, used, read_avali}
use dpa.Queue.Counts.{used-lt, read_avali-eq-used, slot_idx_next-eq, read_adv-eq, read_adv-counts}
use dpa.Forward.{DupSlot, Copy, flush}
use dpa.Forward.Put.{IsOpen, filled, pending}
use dpa.Forward.Refine.{flush-publishes}
use dpa.Consume.{Reader, read_slots, loop_turn}

-- The callback run on each packet of a list in order.
abbrev pub run_each : {U : Type 0} → (DupSlot → U → U) → List DupSlot → U → U
run_each callback [] u = u
run_each callback (x ∷ xs) u = run_each callback xs (callback x u)

module _ {U : Type 0} (callback : DupSlot → U → U) where
  read_slots-run_each :
      (q : DupQueue) (slots : ℕ → DupSlot) (n ridx : ℕ) (u : U)
      → IsReady q
      → ridx < q.num_slots
      → read_slots callback q slots n ridx u
        ≡ ((ridx + n) % q.num_slots, run_each callback (window slots q.num_slots ridx n) u)
  unfolding read_slots window
  read_slots-run_each q slots zero ridx u r inside =
      ap (λ c. (c, u)) (sym (rw add-zero (mod-eq_of_lt inside)))
  read_slots-run_each q slots (suc n) ridx u r inside =
      let next = slot_idx_next-eq r ridx inside in
      ap (λ c. read_slots callback q slots n c (callback (slots ridx) u)) next
      ∙ read_slots-run_each q slots n ((ridx + 1) % q.num_slots) (callback (slots ridx) u) r
          (mod-lt _ (omega arith))
      ∙ ap
          (λ c. (
            c,
            run_each callback (window slots q.num_slots ((ridx + 1) % q.num_slots) n)
                (callback (slots ridx) u),
          ))
          (advance_twice ridx 1 n q.num_slots ∙ ap (λ t. (ridx + t) % q.num_slots) (omega arith))

  -- One turn of dup_loop on a ready queue, from the queue's read index, calls the callback once for
  -- each packet that is published, in order; it leaves a ready queue with nothing to read, and its
  -- local index is again the queue's.
  pub loop_turn-delivers :
      (r : Reader) (u : U)
      → IsReady r.queue
      → r.ridx ≡ r.queue.ridx
      → let (r', u') = loop_turn callback r u in
        (u' ≡ run_each callback (window r.slots r.queue.num_slots r.queue.ridx (used r.queue)) u)
        × IsReady r'.queue
        × (read_avali r'.queue ≡ 0)
        × (r'.ridx ≡ r'.queue.ridx)
  unfolding loop_turn
  loop_turn-delivers r u ready e =
      let n = read_avali-eq-used ready in
      elim (Bool-cases (read_avali r.queue == 0)) [
        | inl z ↦
            let none_used : used r.queue ≡ 0 = sym n ∙ (==_iff _ _).0 z in
            rw z (rw none_used (unfold window in refl), ready, (==_iff _ _).0 z, e)
        | inr z ↦
            let (ready', fewer, more) = read_adv-counts ready (read_avali r.queue) (omega arith) in
            let moved = read_adv-eq ready (read_avali r.queue) (omega (arith, n, used-lt ready)) in
            let slots =
              read_slots-run_each r.queue r.slots (read_avali r.queue) r.ridx u ready
                (rw e ready.ridx_in) in
            rw z (
              ap (λ (t : ℕ × U). t.1) slots
                  ∙ ap
                      (λ h.
                        run_each callback (window r.slots r.queue.num_slots h (read_avali r.queue))
                          u)
                      e
                  ∙ ap (λ k. run_each callback (window r.slots r.queue.num_slots r.queue.ridx k) u)
                      n,
              ready',
              omega (arith, fewer),
              ap (λ (t : ℕ × U). t.0) slots
                  ∙ ap (λ h. (h + read_avali r.queue) % r.queue.num_slots) e
                  ∙ sym (ap (λ (q : DupQueue). q.ridx) moved),
            )
      ]

  used-flush : (c : Copy) → IsOpen c → used (flush c).queue ≡ filled (flush c)
  used-flush c o =
      let (o', same, drops, all) = flush-publishes c o in
      sym (read_avali-eq-used o'.counted.ready)
      ∙ all
      ∙ sym (length-window c.slots c.queue.num_slots c.queue.ridx (filled c))
      ∙ ap length (sym same)
      ∙ length-window (flush c).slots (flush c).queue.num_slots (flush c).queue.ridx
          (filled (flush c))

  -- After the duplicator has ended a batch, one turn of dup_loop hands exactly the packets that
  -- were pending to the callback, in order.
  flush-loop_turn :
      (c : Copy) (u : U)
      → IsOpen c
      → let r : Reader = record {
        queue = (flush c).queue;
        slots = (flush c).slots;
        ridx = (flush c).queue.ridx;
      } in
        (loop_turn callback r u).1 ≡ run_each callback (pending c) u
  flush-loop_turn c u o =
      let (o', same, drops, all) = flush-publishes c o in
      let r : Reader = record {
        queue = (flush c).queue;
        slots = (flush c).slots;
        ridx = (flush c).queue.ridx;
      } in
      (loop_turn-delivers r u o'.counted.ready refl).0
      ∙ ap
          (λ k.
            run_each callback
              (window (flush c).slots (flush c).queue.num_slots (flush c).queue.ridx k) u)
          (used-flush c o)
      ∙ ap (λ xs. run_each callback xs u) same
