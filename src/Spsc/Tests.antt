-- ===== src/Spsc/Tests.antt =====
-- Runs of a producer (duplicator/duplicator.c) and a consumer (lib/dup_intf.c) on a queue of four
-- slots with one packet to read.
use dpa.Prelude.{ℕ, ◌<◌, ◌≡◌, [], ◌∷◌, ◌++◌, inr, arith, refl, length, none}
use dpa.Prelude.Word.{ltb_i32}
use dpa.Window.{window}
use dpa.Queue.{slot_idx_next, write_adv, DupQueue, used, widx_offset}
use dpa.Forward.{DupSlot, store}
use dpa.Forward.Put.{unpublished}
use dpa.Spsc.{
  idle, waiting, World, Reach, here, after, begin_room, put_slot, go_on, publish_rest, look,
  look_again, looked_thrice, poll, IsSteady,
}
use dpa.Spsc.Inv.{Inv, unread}
use dpa.Spsc.Fifo.{Reach-fifo}
use dpa.Spsc.Drain.{Alone, IsFresh, Reach-drains}

abbrev four_slots : DupQueue
four_slots = record {
  queue_id = 0;
  num_slots = 4;
  slot_size = 2048;
  widx = 3;
  ridx = 2;
  mask = 3;
  drop_packets = 0;
  drop_bytes = 0;
  slot_offs = 128;
}

abbrev packet : ℕ → DupSlot
packet i = record { len = i; info = 0; packet = [] }

abbrev start : World
start = record {
  copy = record { queue = four_slots; slots = packet; widx = 3; wavali = 2 };
  pc = idle;
  ridx = 2;
  phase = waiting;
  accepted = packet 2 ∷ [];
  delivered = [];
}

start-Inv : Inv start
unfolding used widx_offset window
start-Inv = record {
  ready = record {
    log = 2;
    size = refl;
    mask_eq = refl;
    small = omega arith;
    widx_in = omega arith;
    ridx_in = omega arith;
  };
  widx_in = omega arith;
  fits = omega arith;
  cached = (omega arith, omega arith, inr (omega arith));
  run_used = omega arith;
  taken_run = omega arith;
  ridx_at = refl;
  fifo = refl;
}

-- There is room for a packet, which is stored; the batch ends, and the room is looked at anew.
abbrev one_more : World
one_more = record start {
  copy = store start.copy (packet 9);
  pc = idle;
  accepted = packet 2 ∷ packet 9 ∷ [];
}

one_more-Reach : Reach start one_more
unfolding store widx_offset slot_idx_next
one_more-Reach =
    after
      (after (after here (begin_room (packet 9) refl (λ e. absurd (omega (arith, e)))))
        (put_slot (packet 9) refl (λ e. absurd (omega (arith, e)))))
      (go_on refl (λ e. absurd (omega (arith, e))))

one_more-IsSteady : IsSteady one_more-Reach
unfolding one_more-Reach
one_more-IsSteady = (((tt, tt), tt), tt)

-- The producer publishes, and reads the consumer's index three times; in between the consumer begins to
-- read its own.
abbrev after_batch : (t : World) × Reach start t
unfolding write_adv widx_offset store slot_idx_next ltb_i32
after_batch = (
  _,
  after
      (after
        (after
          (after (after one_more-Reach (publish_rest refl (λ e. absurd (omega (arith, e)))))
            (look refl))
          (look_again none 2 refl refl refl))
        (poll refl))
      (looked_thrice none 2 2 refl refl),
)

after_batch-IsSteady : IsSteady after_batch.1
unfolding after_batch one_more-Reach ltb_i32 write_adv widx_offset store slot_idx_next
after_batch-IsSteady = (((((one_more-IsSteady, tt), tt), tt), tt), (refl, refl))

Reach-fifo_example :
    (after_batch.0.accepted ≡ after_batch.0.delivered ++ unread after_batch.0)
    × (length (unread after_batch.0) < after_batch.0.copy.queue.num_slots)
Reach-fifo_example = Reach-fifo start-Inv after_batch.1 after_batch-IsSteady

all_published : unpublished after_batch.0.copy ≡ 0
unfolding after_batch write_adv widx_offset store slot_idx_next ltb_i32
all_published = refl

after_batch-IsFresh : IsFresh after_batch.0 after_batch.0.phase
unfolding after_batch write_adv widx_offset store slot_idx_next ltb_i32
after_batch-IsFresh = refl

Reach-drains_example :
    (t : World) × Alone after_batch.0 t
    × (t.pc ≡ after_batch.0.pc)
    × (t.accepted ≡ after_batch.0.accepted)
    × (t.delivered ≡ after_batch.0.accepted)
    × (used t.copy.queue ≡ 0)
Reach-drains_example =
    Reach-drains start-Inv after_batch.1 after_batch-IsSteady all_published after_batch-IsFresh
