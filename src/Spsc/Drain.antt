-- ===== src/Spsc/Drain.antt =====
-- The consumer of lib/dup_intf.c, dup_loop, catches up with what duplicator/duplicator.c published.
use dpa.Prelude.{
  ℕ, zero, suc, ◌+◌, ◌-◌, ◌≤◌, ◌<◌, ◌^◌, ◌≡◌, [], ◌∷◌, ◌++◌, arith, ap, sym, refl, ◌∙◌, append-nil,
  subst, true, false,
}
use dpa.Prelude.Word.{ltb_i32}
use dpa.Window.{window}
use dpa.Queue.{used, read_avali_reads, read_adv, widx_offset, slot_idx_next}
use dpa.Queue.Counts.{used-read_adv}
use dpa.Forward.Put.{unpublished, filled}
use dpa.Spsc.{
  Phase, waiting, polls, reading, World, Step, poll, polled_none, polled, read_one, release, Reach,
  here, after, with_queue, Agrees, IsSteady,
}
use dpa.Spsc.Inv.{taken, run, Inv}
use dpa.Spsc.Consumer.{steady-read_avali}
use native.Mathlib.Decide.{ℕ_discrete}
use dpa.Spsc.Fifo.{Step-Inv, Reach-Inv, run-le}

-- The steps that are the consumer's
abbrev pub IsConsumers : (s t : World) → Step s t → Type 0
IsConsumers s _ (poll e) = Unit {0}
IsConsumers s _ (polled_none w1 e h) = Unit {0}
IsConsumers s _ (polled w1 e h) = Unit {0}
IsConsumers s _ (read_one ravali done e h) = Unit {0}
IsConsumers s _ (release ravali done e h) = Unit {0}
IsConsumers s _ _ = ⊥

abbrev pub ByConsumer : {s t : World} → Reach s t → Type 0
ByConsumer here = Unit {0}
ByConsumer (after {s} {t} r step) = ByConsumer r × IsConsumers s t step

-- A run of the consumer alone, which is steady
abbrev pub Alone : World → World → Type 0
Alone s t = (r : Reach s t) × ByConsumer r × IsSteady r

Alone-trans : {s t u : World} → Alone s t → (r : Reach t u) → ByConsumer r → IsSteady r → Alone s u
Alone-trans a here c st = a
Alone-trans a (after r step) c st =
    let b = Alone-trans a r c.0 st.0 in (after b.0 step, (b.1, c.1), (b.2, st.1))

-- The consumer got from `s` to `t`, where it waits, and the producer rested.
record Ran (s t : World) : Type 0 where
  reach : Alone s t
  at_rest : t.phase ≡ waiting
  same_pc : t.pc ≡ s.pc
  same_offset : unpublished t.copy ≡ unpublished s.copy
  same_accepted : t.accepted ≡ s.accepted

-- One more of the consumer's steps before.
Ran_after :
    {s m t : World}
    → (step : Step s m) → IsConsumers s m step
    → Agrees s m step
    → m.pc ≡ s.pc
    → unpublished m.copy ≡ unpublished s.copy
    → m.accepted ≡ s.accepted
    → Ran m t
    → Ran s t
Ran_after step mine steady p o a v = record {
  reach = Alone-trans (after here step, (tt, mine), (tt, steady)) v.reach.0 v.reach.1 v.reach.2;
  at_rest = v.at_rest;
  same_pc = v.same_pc ∙ p;
  same_offset = v.same_offset ∙ o;
  same_accepted = v.same_accepted ∙ a;
}

going : (done ravali : ℕ) → done < ravali → ravali < 2 ^ 30 → ltb_i32 done ravali ≡ true
unfolding ltb_i32
going done ravali lt small = ground (arith, lt, small)

gone : (done ravali : ℕ) → done ≡ ravali → ravali < 2 ^ 30 → ltb_i32 done ravali ≡ false
unfolding ltb_i32
gone done ravali e small = ground (arith, e, small)

-- A run that has begun is read to its end and released.
finish :
    (k : ℕ) (s : World) (ravali done : ℕ)
    → s.phase ≡ reading ravali done
    → done + k ≡ ravali
    → ravali ≤ used s.copy.queue
    → Inv s
    → (t : World) × Ran s t × (used t.copy.queue + ravali ≡ used s.copy.queue)
finish zero s ravali done e h le v = (
  record (with_queue s (read_adv s.copy.queue ravali)) { phase = waiting },
  record {
    reach = (
      after here (
          release ravali done e (gone done ravali (omega (arith, h)) (run-le s v ravali done e).1)),
      (tt, tt),
      (tt, tt),
    );
    at_rest = refl;
    same_pc = refl;
    same_offset = unfold widx_offset read_adv in refl;
    same_accepted = refl;
  },
  used-read_adv v.ready ravali le,
)
finish (suc k) s ravali done e h le v =
    let m : World = record s {
      ridx = slot_idx_next s.copy.queue s.ridx;
      phase = reading ravali (suc done);
      delivered = s.delivered ++ s.copy.slots s.ridx ∷ [];
    } in
    let step : Step s m =
      read_one ravali done e (going done ravali (omega (arith, h)) (run-le s v ravali done e).1) in
    let rest = finish k m ravali (suc done) refl (omega arith) le (Step-Inv s m v step tt) in
    (rest.0, Ran_after step tt tt refl refl refl rest.1, rest.2)

-- The second read of `widx`, and one run that takes all that is published.
abbrev Fresh : World → ℕ → Type 0
Fresh s w1 = ltb_i32 s.copy.queue.ridx w1 ≡ ltb_i32 s.copy.queue.ridx s.copy.queue.widx

take_run :
    (s : World) (w1 : ℕ)
    → s.phase ≡ polls w1
    → Fresh s w1
    → Inv s
    → (t : World) × Ran s t × (used t.copy.queue ≡ 0)
take_run s w1 e fresh v =
    let n = read_avali_reads s.copy.queue w1 s.copy.queue.widx in
    let all = steady-read_avali s v w1 fresh in
    elim (ℕ_discrete n 0) [
      | yes p ↦ (
        record s { phase = waiting },
        record {
          reach = (after here (polled_none w1 e p), (tt, tt), (tt, fresh));
          at_rest = refl;
          same_pc = refl;
          same_offset = refl;
          same_accepted = refl;
        },
        sym all ∙ p,
      )
      | no p ↦
          let m : World = record s { phase = reading n 0 } in
          let step : Step s m = polled w1 e p in
          let rest =
            finish n m n 0 refl (omega arith) (omega (arith, all)) (Step-Inv s m v step fresh) in
          (rest.0, Ran_after step tt fresh refl refl refl rest.1, omega (arith, rest.2, all))
    ]

empty_queue :
    (s : World) → s.phase ≡ waiting → Inv s → (t : World) × Ran s t × (used t.copy.queue ≡ 0)
empty_queue s e v =
    let m : World = record s { phase = polls s.copy.queue.widx } in
    let step : Step s m = poll e in
    let rest = take_run m s.copy.queue.widx refl refl (Step-Inv s m v step tt) in
    (rest.0, Ran_after step tt tt refl refl refl rest.1, rest.2)

-- The consumer is not between two reads of `widx` whose test would come out otherwise now.
abbrev pub IsFresh : World → Phase → Type 0
IsFresh s waiting = Unit {0}
IsFresh s (polls w1) = ltb_i32 s.copy.queue.ridx w1 ≡ ltb_i32 s.copy.queue.ridx s.copy.queue.widx
IsFresh s (reading ravali done) = Unit {0}

catch_up :
    (s : World) (p : Phase)
    → s.phase ≡ p
    → IsFresh s p
    → Inv s
    → (t : World) × Ran s t × (used t.copy.queue ≡ 0)
catch_up s waiting e fresh v = empty_queue s e v
catch_up s (polls w1) e fresh v = take_run s w1 e fresh v
catch_up s (reading ravali done) e fresh v =
    let in_run = subst (λ p. run p ≤ used s.copy.queue) e v.run_used in
    let begun = subst (λ p. taken p ≤ run p) e v.taken_run in
    let first = finish (ravali - done) s ravali done e (omega arith) in_run v in
    let w = Reach-Inv v first.1.reach.0 first.1.reach.2 in
    let last = empty_queue first.0 first.1.at_rest w in
    let there = last.1.reach in
    (
      last.0,
      record {
        reach = Alone-trans first.1.reach there.0 there.1 there.2;
        at_rest = last.1.at_rest;
        same_pc = last.1.same_pc ∙ first.1.same_pc;
        same_offset = last.1.same_offset ∙ first.1.same_offset;
        same_accepted = last.1.same_accepted ∙ first.1.same_accepted;
      },
      last.2,
    )

-- From every state that the two sides reach from a sound one by steps within whose calls the tests come
-- out the same with the index read last, and in which nothing is filled and unpublished and the
-- consumer is not between two reads whose test would come out otherwise now: steps of the consumer
-- alone lead to a state in which its callback got all the packets that the producer had stored, in
-- order, and the queue is empty.
pub Reach-drains :
    {start s : World}
    → Inv start
    → (r : Reach start s) → IsSteady r
    → unpublished s.copy ≡ 0
    → IsFresh s s.phase
    → (t : World) × Alone s t
      × (t.pc ≡ s.pc)
      × (t.accepted ≡ s.accepted)
      × (t.delivered ≡ s.accepted)
      × (used t.copy.queue ≡ 0)
Reach-drains {start} {s} v r steady none_left fresh =
    let w = Reach-Inv v r steady in
    let (t, ran, none_used) = catch_up s s.phase refl fresh w in
    let u = Reach-Inv w ran.reach.0 ran.reach.2 in
    let nothing : filled t.copy - taken t.phase ≡ 0 = omega (arith, ran.same_offset) in
    (
      t,
      ran.reach,
      ran.same_pc,
      ran.same_accepted,
      sym (
          sym ran.same_accepted
          ∙ u.fifo
          ∙ ap (λ k. t.delivered ++ window t.copy.slots t.copy.queue.num_slots t.ridx k) nothing
          ∙ unfold window in append-nil t.delivered),
      none_used,
    )
