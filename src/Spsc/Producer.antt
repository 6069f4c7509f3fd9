-- ===== src/Spsc/Producer.antt =====
-- The producer's steps (duplicator/duplicator.c) keep the invariant, whatever the consumer is at.
use dpa.Prelude.{
  ℕ, suc, ◌+◌, ◌-◌, ◌%◌, ◌≤◌, ◌<◌, ◌≡◌, ◌≢◌, [], ◌∷◌, ◌++◌, arith, ap, sym, refl, ◌∙◌, append_assoc,
  subst, Option, none, some, Bool-cases, inl, inr, true, false,
}
use native.Mathlib.Nat.{mod-lt}
use dpa.Prelude.Word.{ltb_i32}
use dpa.Prelude.Mod.{advance_twice}
use dpa.Window.{window, window-store}
use dpa.Queue.{used, write_avali_reads, write_avali, write_adv, widx_offset}
use dpa.Queue.Counts.{used-lt, write_avali-eq}
use dpa.Queue.Offset.{advance-widx_offset, advance-used}
use dpa.Forward.{DupSlot, drop, store}
use dpa.Forward.Put.{
  unpublished, filled, store-counts, advanced, advanced-IsReady, used-advanced, num_slots-advanced,
  widx_offset-advanced,
}
use dpa.Spsc.{
  Pc, idle, looks_once, looks_twice, resume, looked, decide, stored, published, World, with_queue,
}
use dpa.Spsc.Inv.{taken, Cached, unread, Inv}

true-ne-false : true ≡ false → ⊥
true-ne-false e = cc

module _ (s : World) (v : Inv s) where
  Cached-at :
      (pc : Pc)
      → s.pc ≡ pc
      → Cached pc s.copy.queue.num_slots (used s.copy.queue) (unpublished s.copy) s.copy.wavali
  Cached-at pc e =
      subst
        (λ p.
          Cached p s.copy.queue.num_slots (used s.copy.queue) (unpublished s.copy) s.copy.wavali)
        e v.cached

  -- A change of the producer's position and of its cached count alone.
  moved :
      (pc : Pc) (w : ℕ)
      → Cached pc s.copy.queue.num_slots (used s.copy.queue) (unpublished s.copy) w
      → Inv (record s { copy = record (s.copy) { wavali = w }; pc = pc })
  moved pc w c = record {
    ready = v.ready;
    widx_in = v.widx_in;
    fits = v.fits;
    cached = c;
    run_used = v.run_used;
    taken_run = v.taken_run;
    ridx_at = v.ridx_at;
    fifo = v.fifo;
  }

  pub begin_room-Inv : (x : DupSlot) → s.pc ≡ idle → Inv (record s { pc = decide x })
  begin_room-Inv x e = moved (decide x) s.copy.wavali (Cached-at idle e)

  pub begin_look-Inv :
      (x : DupSlot)
      → s.pc ≡ idle
      → s.copy.wavali ≡ 0
      → Inv (record s { pc = looks_once (some x) s.copy.queue.ridx })
  begin_look-Inv x e h =
      let room = Cached-at idle e in
      moved (looks_once (some x) s.copy.queue.ridx) s.copy.wavali (omega (arith, room.1, h))

  pub look_again-Inv :
      (x : Option DupSlot) (r1 r2 : ℕ)
      → s.pc ≡ looks_once x r1
      → Inv (record s { pc = looks_twice x r1 r2 })
  look_again-Inv x r1 r2 e =
      moved (looks_twice x r1 r2) s.copy.wavali (Cached-at (looks_once x r1) e)

  Cached-resume : (x : Option DupSlot) (n u p w : ℕ) → p ≡ 0 → w + u < n → Cached (resume x) n u p w
  Cached-resume none n u p w e lt = (lt, omega (arith, e), grind (arith, e))
  Cached-resume (some x) n u p w e lt = (lt, omega (arith, e), grind (arith, e))

  -- The room, where the tests come out as they did, is that of one look.
  steady_room :
      (r1 r2 : ℕ)
      → ltb_i32 r1 s.copy.queue.widx ≡ ltb_i32 s.copy.queue.ridx s.copy.queue.widx
      → ltb_i32 s.copy.queue.widx r2 ≡ ltb_i32 s.copy.queue.widx s.copy.queue.ridx
      → (ltb_i32 r1 s.copy.queue.widx ≡ true → r2 ≡ s.copy.queue.ridx)
      → write_avali_reads s.copy.queue r1 r2 s.copy.queue.ridx ≡ write_avali s.copy.queue
  unfolding write_avali write_avali_reads
  steady_room r1 r2 e f same = elim (Bool-cases (ltb_i32 r1 s.copy.queue.widx)) [
    | inl t ↦ rw (sym e, t, same t) refl
    | inr t ↦ rw (sym e, t, f) refl
  ]

  looked-Inv :
      (x : Option DupSlot) (room : ℕ)
      → unpublished s.copy ≡ 0
      → room ≡ write_avali s.copy.queue
      → Inv (looked s x room)
  looked-Inv x room none_left e =
      let all = write_avali-eq v.ready in
      let lt = used-lt v.ready in
      moved (resume x) room (Cached-resume x _ _ _ room none_left (omega (arith, e, all, lt)))

  pub looked_twice-Inv :
      (x : Option DupSlot) (r1 : ℕ)
      → s.pc ≡ looks_once x r1
      → ltb_i32 r1 s.copy.queue.widx ≡ ltb_i32 s.copy.queue.ridx s.copy.queue.widx
      → Inv (looked s x (write_avali_reads s.copy.queue r1 s.copy.queue.ridx s.copy.queue.ridx))
  looked_twice-Inv x r1 e a =
      looked-Inv x _ (Cached-at (looks_once x r1) e)
        (steady_room r1 s.copy.queue.ridx a refl (λ t. refl))

  pub looked_thrice-Inv :
      (x : Option DupSlot) (r1 r2 : ℕ)
      → s.pc ≡ looks_twice x r1 r2
      → ltb_i32 r1 s.copy.queue.widx ≡ false
      → ltb_i32 r1 s.copy.queue.widx ≡ ltb_i32 s.copy.queue.ridx s.copy.queue.widx
      → ltb_i32 s.copy.queue.widx r2 ≡ ltb_i32 s.copy.queue.widx s.copy.queue.ridx
      → Inv (looked s x (write_avali_reads s.copy.queue r1 r2 s.copy.queue.ridx))
  looked_thrice-Inv x r1 r2 e h a b =
      looked-Inv x _ (Cached-at (looks_twice x r1 r2) e)
        (steady_room r1 r2 a b (λ t. absurd (true-ne-false (sym t ∙ h))))

  pub give_up-Inv :
      (x : DupSlot) → s.pc ≡ decide x → Inv (record s { copy = drop s.copy x; pc = idle })
  unfolding drop used widx_offset
  give_up-Inv x e = record {
    ready = record {
      log = v.ready.log;
      size = v.ready.size;
      mask_eq = v.ready.mask_eq;
      small = v.ready.small;
      widx_in = v.ready.widx_in;
      ridx_in = v.ready.ridx_in;
    };
    widx_in = v.widx_in;
    fits = v.fits;
    cached = Cached-at (decide x) e;
    run_used = v.run_used;
    taken_run = v.taken_run;
    ridx_at = v.ridx_at;
    fifo = v.fifo;
  }

  pub go_on-Inv :
      s.pc ≡ stored
      → widx_offset s.copy.queue s.copy.widx ≢ s.copy.wavali
      → Inv (record s { pc = idle })
  go_on-Inv e h = let room = Cached-at stored e in moved idle s.copy.wavali (grind arith)

  pub look-Inv : s.pc ≡ published → Inv (record s { pc = looks_once none s.copy.queue.ridx })
  look-Inv e = moved (looks_once none s.copy.queue.ridx) s.copy.wavali (Cached-at published e)

  pub nothing_left-Inv :
      s.pc ≡ idle → widx_offset s.copy.queue s.copy.widx ≡ 0 → Inv (record s { pc = published })
  nothing_left-Inv e h = moved published s.copy.wavali h

  published_here :
      Inv (record (with_queue s (write_adv s.copy.queue (unpublished s.copy))) { pc = published })
  published_here =
      let ready = advanced-IsReady s.copy v.ready v.widx_in v.fits in
      let u = used-advanced s.copy v.ready v.widx_in v.fits in
      let n = num_slots-advanced s.copy v.ready v.widx_in v.fits in
      let o = widx_offset-advanced s.copy v.ready v.widx_in v.fits in
      let r = v.run_used in
      let f = v.fits in
      let w = v.widx_in in
      let same : used (advanced s.copy) + widx_offset (advanced s.copy) s.copy.widx
          ≡ filled s.copy =
        omega arith in
      record {
        ready = ready;
        widx_in = omega arith;
        fits = omega arith;
        cached = o;
        run_used = omega arith;
        taken_run = v.taken_run;
        ridx_at = unfold write_adv in v.ridx_at;
        fifo =
            v.fifo
            ∙ unfold write_adv in
              ap
                (λ k.
                  s.delivered
                  ++ window s.copy.slots s.copy.queue.num_slots s.ridx (k - taken s.phase))
                (sym same);
      }

  pub publish-Inv :
      (n : ℕ)
      → widx_offset s.copy.queue s.copy.widx ≡ n
      → Inv (record (with_queue s (write_adv s.copy.queue n)) { pc = published })
  publish-Inv n e =
      subst (λ t. Inv (record (with_queue s (write_adv s.copy.queue t)) { pc = published })) e
        published_here

  pub put_slot-Inv :
      (x : DupSlot)
      → s.pc ≡ decide x
      → s.copy.wavali ≢ 0
      → Inv (record s { copy = store s.copy x; pc = stored; accepted = s.accepted ++ x ∷ [] })
  put_slot-Inv x e h = record {
    ready = unfold store in v.ready;
    widx_in = omega (arith, inside, same_size);
    fits = omega (arith, offset, same_used, same_size, more);
    cached = grind (arith, room, offset, same_used, same_size, same_wavali);
    run_used = unfold store in v.run_used;
    taken_run = v.taken_run;
    ridx_at = unfold store in v.ridx_at;
    fifo = extended;
  }
    where
      room :
          Cached
            (decide x)
            s.copy.queue.num_slots
            (used s.copy.queue)
            (unpublished s.copy)
            s.copy.wavali
      room = Cached-at (decide x) e

      more : filled s.copy + 1 < s.copy.queue.num_slots
      more = ground (arith, room)

      offset : unpublished (store s.copy x) ≡ unpublished s.copy + 1
      offset = (store-counts s.copy x v.ready v.widx_in more).0

      inside : (store s.copy x).widx < s.copy.queue.num_slots
      inside = (store-counts s.copy x v.ready v.widx_in more).1

      same_used : used (store s.copy x).queue ≡ used s.copy.queue
      same_used = unfold store in refl

      same_wavali : (store s.copy x).wavali ≡ s.copy.wavali
      same_wavali = unfold store in refl

      same_size : (store s.copy x).queue.num_slots ≡ s.copy.queue.num_slots
      same_size = unfold store in refl

      held : taken s.phase ≤ filled s.copy
      held = omega (arith, v.taken_run, v.run_used)

      here : s.ridx < s.copy.queue.num_slots
      here = rw v.ridx_at (mod-lt _ (omega (arith, v.fits)))

      place : s.copy.widx ≡ (s.ridx + (filled s.copy - taken s.phase)) % s.copy.queue.num_slots
      place =
          sym (advance-widx_offset v.ready s.copy.widx v.widx_in)
          ∙ ap (λ t. (t + unpublished s.copy) % s.copy.queue.num_slots) (sym (advance-used v.ready))
          ∙ advance_twice s.copy.queue.ridx (used s.copy.queue) (unpublished s.copy)
              s.copy.queue.num_slots
          ∙ ap (λ t. t % s.copy.queue.num_slots) (omega (arith, held))
          ∙ sym (
              advance_twice s.copy.queue.ridx (taken s.phase) (filled s.copy - taken s.phase)
                s.copy.queue.num_slots)
          ∙ ap (λ t. (t + (filled s.copy - taken s.phase)) % s.copy.queue.num_slots) (sym v.ridx_at)

      stored_window :
          window
            (store s.copy x).slots
            (store s.copy x).queue.num_slots
            s.ridx
            (suc (filled s.copy - taken s.phase))
          ≡ unread s ++ x ∷ []
      stored_window =
          unfold store in
          window-store s.copy.slots _ s.ridx (filled s.copy - taken s.phase) s.copy.widx x here
            (omega (arith, v.fits)) place

      grown :
          unread (record s { copy = store s.copy x; pc = stored; accepted = s.accepted ++ x ∷ [] })
          ≡ unread s ++ x ∷ []
      grown =
          ap (window (store s.copy x).slots (store s.copy x).queue.num_slots s.ridx)
            (omega (arith, offset, same_used, held))
          ∙ stored_window

      extended :
          s.accepted ++ x ∷ []
          ≡ s.delivered
            ++ unread
                (record s { copy = store s.copy x; pc = stored; accepted = s.accepted ++ x ∷ [] })
      extended =
          ap (λ l. l ++ x ∷ []) v.fifo
          ∙ append_assoc s.delivered (unread s) (x ∷ [])
          ∙ ap (λ l. s.delivered ++ l) (sym grown)
