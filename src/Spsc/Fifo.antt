-- ===== src/Spsc/Fifo.antt =====
-- What a queue (duplicator/queue.c) promises to its producer and its consumer, whatever the order
-- of their steps.
use dpa.Prelude.{◌-◌, ◌≤◌, ◌<◌, ◌≡◌, ◌++◌, length, arith, refl, ℕ, subst, false, ◌∙◌, ap, ◌^◌, true}
use dpa.Prelude.Word.{ltb_i32}
use dpa.Window.{length-window}
use dpa.Forward.Put.{unpublished, filled}
use dpa.Queue.{used}
use dpa.Spsc.{
  World, Step, begin_room, begin_look, look_again, looked_twice, looked_thrice, give_up, put_slot,
  go_on, publish_full, publish_rest, nothing_left, look, poll, polled_none, polled, read_one,
  release, Reach, here, after, reading, waiting, polls, Agrees, IsSteady,
}
use dpa.Spsc.Inv.{taken, run, unread, Inv}
use dpa.Spsc.Producer.{
  begin_room-Inv, begin_look-Inv, look_again-Inv, looked_twice-Inv, looked_thrice-Inv, give_up-Inv,
  put_slot-Inv, go_on-Inv, publish-Inv, nothing_left-Inv, look-Inv,
}
use dpa.Spsc.Consumer.{phase-Inv, steady-read_avali, read_one-Inv, release-Inv}

below_run :
    (done ravali : ℕ) → done < 2 ^ 31 → ravali < 2 ^ 31 → ltb_i32 done ravali ≡ true → done < ravali
unfolding ltb_i32
below_run done ravali a b e = ground (arith, a, b, e)

end_of_run :
    (done ravali : ℕ)
    → done ≤ ravali
    → ravali < 2 ^ 31
    → ltb_i32 done ravali ≡ false
    → done ≡ ravali
unfolding ltb_i32
end_of_run done ravali le b e = ground (arith, le, b, e)

module _ (s : World) (v : Inv s) where
  -- A run is no longer than the queue.
  pub run-le :
      (ravali done : ℕ) → s.phase ≡ reading ravali done → (done ≤ ravali) × (ravali < 2 ^ 30)
  run-le ravali done e =
      let in_run = subst (λ p. run p ≤ used s.copy.queue) e v.run_used in
      let begun = subst (λ p. taken p ≤ run p) e v.taken_run in
      (begun, omega (arith, in_run, v.fits, v.ready.small))

-- Each step of either side whose tests come out as they did, in whatever state the other side is,
-- keeps the invariant.
pub Step-Inv : (s t : World) → Inv s → (step : Step s t) → Agrees s t step → Inv t
Step-Inv s _ v (begin_room x e h) a = begin_room-Inv s v x e
Step-Inv s _ v (begin_look x e h) a = begin_look-Inv s v x e h
Step-Inv s _ v (look_again x r1 e h h') a = look_again-Inv s v x r1 s.copy.queue.ridx e
Step-Inv s _ v (looked_twice x r1 e h) a = looked_twice-Inv s v x r1 e a
Step-Inv s _ v (looked_thrice x r1 r2 e h) a = looked_thrice-Inv s v x r1 r2 e h a.0 a.1
Step-Inv s _ v (give_up x e h) a = give_up-Inv s v x e
Step-Inv s _ v (put_slot x e h) a = put_slot-Inv s v x e h
Step-Inv s _ v (go_on e h) a = go_on-Inv s v e h
Step-Inv s _ v (publish_full e h) a = publish-Inv s v s.copy.wavali h
Step-Inv s _ v (publish_rest e h) a = publish-Inv s v (unpublished s.copy) refl
Step-Inv s _ v (nothing_left e h) a = nothing_left-Inv s v e h
Step-Inv s _ v (look e) a = look-Inv s v e
Step-Inv s _ v (poll e) a = phase-Inv s v (polls s.copy.queue.widx) (ap taken e) refl (omega arith)
Step-Inv s _ v (polled_none w1 e h) a = phase-Inv s v waiting (ap taken e) refl (omega arith)
Step-Inv s _ v (polled w1 e h) a =
    phase-Inv s v (reading _ 0) (ap taken e) refl (omega (arith, steady-read_avali s v w1 a))
Step-Inv s _ v (read_one ravali done e h) a =
    let r = run-le s v ravali done e in
    read_one-Inv s v ravali done e (below_run done ravali (omega (arith, r)) (omega (arith, r)) h)
Step-Inv s _ v (release ravali done e h) a =
    let r = run-le s v ravali done e in
    let whole = end_of_run done ravali r.0 (omega (arith, r)) h in
    release-Inv s v ravali (e ∙ ap (reading ravali) whole)

pub Reach-Inv : {s t : World} → Inv s → (r : Reach s t) → IsSteady r → Inv t
Reach-Inv v here steady = v
Reach-Inv v (after {s} {t} r step) steady = Step-Inv s t (Reach-Inv v r steady.0) step steady.1

-- In every state that the two sides reach from a sound one, with the reads of the other side's index
-- within a call, and all other steps, in whatever order: as long as for each call of
-- dup_queue_write_avali and dup_queue_read_avali its tests come out the same with the index that it reads
-- last, the packets that the producer stored are those that the consumer's callback got, followed by
-- those that the slots from the consumer's index on hold, in the order in which they were stored; and
-- there are fewer of the latter than the queue has slots.
pub Reach-fifo :
    {s t : World}
    → Inv s
    → (r : Reach s t) → IsSteady r
    → (t.accepted ≡ t.delivered ++ unread t) × (length (unread t) < t.copy.queue.num_slots)
Reach-fifo {s} {t} v r steady =
    let w = Reach-Inv v r steady in
    (
      w.fifo,
      omega (
        arith,
        length-window t.copy.slots t.copy.queue.num_slots t.ridx (filled t.copy - taken t.phase),
        w.fits,
      ),
    )
