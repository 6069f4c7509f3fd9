-- ===== src/Spsc/Consumer.antt =====
-- The consumer's steps (lib/dup_intf.c, dup_loop) keep the invariant, whatever the producer is at.
use native.Mathlib.Nat.{mod-lt, mod-eq_of_lt, add-zero}
use dpa.Prelude.{
  ℕ, suc, ◌+◌, ◌-◌, ◌%◌, ◌≤◌, ◌<◌, ◌≡◌, [], ◌∷◌, ◌++◌, arith, ap, ap₂, sym, refl, ◌∙◌, append_assoc,
  subst,
}
use dpa.Prelude.Word.{ltb_i32}
use dpa.Prelude.Mod.{advance_twice}
use dpa.Window.{window, window-suc}
use dpa.Queue.{
  DupQueue, IsReady, used, read_avali_reads, read_avali, read_adv, widx_offset, slot_idx_next,
}
use dpa.Queue.Counts.{
  read_avali-eq-used, slot_idx_next-eq, read_adv-eq, read_adv-IsReady, used-read_adv,
  num_slots-read_adv,
}
use dpa.Forward.Put.{unpublished, filled}
use dpa.Spsc.{
  Pc, idle, looks_once, looks_twice, decide, stored, published, Phase, waiting, reading, World,
  with_queue,
}
use dpa.Spsc.Inv.{taken, run, Cached, unread, Inv}

-- A smaller count of used slots keeps what the producer's cached count is worth.
Cached-le :
    (pc : Pc) (n n' u u' p p' w : ℕ)
    → n' ≡ n
    → u' ≤ u
    → p' ≡ p
    → Cached pc n u p w
    → Cached pc n' u' p' w
Cached-le idle n n' u u' p p' w e h f c = ground (arith)
Cached-le (looks_once x r1) n n' u u' p p' w e h f c = f ∙ c
Cached-le (looks_twice x r1 r2) n n' u u' p p' w e h f c = f ∙ c
Cached-le (decide x) n n' u u' p p' w e h f c = ground (arith)
Cached-le stored n n' u u' p p' w e h f c = ground (arith)
Cached-le published n n' u u' p p' w e h f c = ground (arith)

module _ (s : World) (v : Inv s) where
  -- A change of the consumer's phase alone, with nothing of a run read before and after.
  pub phase-Inv :
      (p : Phase)
      → taken s.phase ≡ 0
      → taken p ≡ 0
      → run p ≤ used s.copy.queue
      → Inv (record s { phase = p })
  phase-Inv p e e' le = record {
    ready = v.ready;
    widx_in = v.widx_in;
    fits = v.fits;
    cached = v.cached;
    run_used = le;
    taken_run = omega (arith, e');
    ridx_at = v.ridx_at ∙ ap (λ k. (s.copy.queue.ridx + k) % s.copy.queue.num_slots) (e ∙ sym e');
    fifo =
        v.fifo
        ∙ ap
            (λ k.
              s.delivered ++ window s.copy.slots s.copy.queue.num_slots s.ridx (filled s.copy - k))
            (e ∙ sym e');
  }

  -- The count, where the test comes out as it did, is that of one look.
  pub steady-read_avali :
      (w1 : ℕ)
      → ltb_i32 s.copy.queue.ridx w1 ≡ ltb_i32 s.copy.queue.ridx s.copy.queue.widx
      → read_avali_reads s.copy.queue w1 s.copy.queue.widx ≡ used s.copy.queue
  unfolding read_avali_reads
  steady-read_avali w1 e = rw (e) (unfold read_avali in read_avali-eq-used v.ready)

  pub read_one-Inv :
      (ravali done : ℕ)
      → s.phase ≡ reading ravali done
      → done < ravali
      → Inv (record s {
        ridx = slot_idx_next s.copy.queue s.ridx;
        phase = reading ravali (suc done);
        delivered = s.delivered ++ s.copy.slots s.ridx ∷ [];
      })
  read_one-Inv ravali done e h = record {
    ready = v.ready;
    widx_in = v.widx_in;
    fits = v.fits;
    cached = v.cached;
    run_used = in_run;
    taken_run = h;
    ridx_at = next;
    fifo = v.fifo ∙ ap (λ l. s.delivered ++ l) first ∙ sym (append_assoc s.delivered _ _);
  }
    where
      in_run : ravali ≤ used s.copy.queue
      in_run = subst (λ p. run p ≤ used s.copy.queue) e v.run_used

      at : s.ridx ≡ (s.copy.queue.ridx + done) % s.copy.queue.num_slots
      at = subst (λ p. s.ridx ≡ (s.copy.queue.ridx + taken p) % s.copy.queue.num_slots) e v.ridx_at

      here : s.ridx < s.copy.queue.num_slots
      here = rw at (mod-lt _ (omega (arith, v.fits)))

      step : slot_idx_next s.copy.queue s.ridx ≡ (s.ridx + 1) % s.copy.queue.num_slots
      step = slot_idx_next-eq v.ready s.ridx here

      next :
          slot_idx_next s.copy.queue s.ridx
          ≡ (s.copy.queue.ridx + suc done) % s.copy.queue.num_slots
      next =
          step
          ∙ ap (λ t. (t + 1) % s.copy.queue.num_slots) at
          ∙ advance_twice s.copy.queue.ridx done 1 s.copy.queue.num_slots
          ∙ ap (λ t. t % s.copy.queue.num_slots) (omega arith)

      left : filled s.copy - taken s.phase ≡ suc (filled s.copy - suc done)
      left = ap (λ p. filled s.copy - taken p) e ∙ omega (arith, in_run, h)

      first :
          unread s
          ≡ s.copy.slots s.ridx
            ∷ window s.copy.slots s.copy.queue.num_slots
                (slot_idx_next s.copy.queue s.ridx)
                (filled s.copy - suc done)
      first =
          ap (window s.copy.slots s.copy.queue.num_slots s.ridx) left
          ∙ window-suc s.copy.slots s.copy.queue.num_slots s.ridx (filled s.copy - suc done)
          ∙ ap
              (λ i.
                s.copy.slots s.ridx
                ∷ window s.copy.slots s.copy.queue.num_slots i (filled s.copy - suc done))
              (sym step)

  pub release-Inv :
      (ravali : ℕ)
      → s.phase ≡ reading ravali ravali
      → Inv (record (with_queue s (read_adv s.copy.queue ravali)) { phase = waiting })
  release-Inv ravali e = record {
    ready = ready;
    widx_in = omega (arith, v.widx_in, same_size);
    fits = omega (arith, v.fits, same_size, fewer, same_offset);
    cached = cached;
    run_used = omega arith;
    taken_run = omega arith;
    ridx_at = there;
    fifo =
        v.fifo
        ∙ ap (λ l. s.delivered ++ l)
            (ap (window s.copy.slots s.copy.queue.num_slots s.ridx) left ∙ same_window);
  }
    where
      in_run : ravali ≤ used s.copy.queue
      in_run = subst (λ p. run p ≤ used s.copy.queue) e v.run_used

      at : s.ridx ≡ (s.copy.queue.ridx + ravali) % s.copy.queue.num_slots
      at = subst (λ p. s.ridx ≡ (s.copy.queue.ridx + taken p) % s.copy.queue.num_slots) e v.ridx_at

      short : ravali < s.copy.queue.num_slots
      short = omega (arith, in_run, v.fits)

      ready : IsReady (read_adv s.copy.queue ravali)
      ready = read_adv-IsReady v.ready ravali short

      fewer : used (read_adv s.copy.queue ravali) + ravali ≡ used s.copy.queue
      fewer = used-read_adv v.ready ravali in_run

      same_size : (read_adv s.copy.queue ravali).num_slots ≡ s.copy.queue.num_slots
      same_size = num_slots-read_adv s.copy.queue ravali

      same_offset : widx_offset (read_adv s.copy.queue ravali) s.copy.widx ≡ unpublished s.copy
      same_offset = unfold read_adv widx_offset in refl

      moved : (read_adv s.copy.queue ravali).ridx ≡ s.ridx
      moved = ap (λ (q : DupQueue). q.ridx) (read_adv-eq v.ready ravali short) ∙ sym at

      here : s.ridx < s.copy.queue.num_slots
      here = rw at (mod-lt _ (omega (arith, v.fits)))

      there :
          s.ridx
          ≡ ((read_adv s.copy.queue ravali).ridx + 0) % (read_adv s.copy.queue ravali).num_slots
      there = sym (ap₂ (λ a b. (a + 0) % b) moved same_size ∙ rw add-zero (mod-eq_of_lt here))

      cached :
          Cached s.pc
            (read_adv s.copy.queue ravali).num_slots
            (used (read_adv s.copy.queue ravali))
            (widx_offset (read_adv s.copy.queue ravali) s.copy.widx)
            s.copy.wavali
      cached =
          Cached-le s.pc s.copy.queue.num_slots _ (used s.copy.queue) _ (unpublished s.copy) _
            s.copy.wavali same_size (omega (arith, fewer)) same_offset v.cached

      left :
          filled s.copy - taken s.phase
          ≡ used (read_adv s.copy.queue ravali)
            + widx_offset (read_adv s.copy.queue ravali) s.copy.widx
            - 0
      left = ap (λ p. filled s.copy - taken p) e ∙ omega (arith, fewer, same_offset)

      same_window :
          window s.copy.slots s.copy.queue.num_slots s.ridx (
            used (read_adv s.copy.queue ravali)
            + widx_offset (read_adv s.copy.queue ravali) s.copy.widx
            - 0)
          ≡ unread (record (with_queue s (read_adv s.copy.queue ravali)) { phase = waiting })
      same_window = sym (
          ap
            (λ n. window s.copy.slots n s.ridx (
              used (read_adv s.copy.queue ravali)
              + widx_offset (read_adv s.copy.queue ravali) s.copy.widx
              - 0))
            same_size)
