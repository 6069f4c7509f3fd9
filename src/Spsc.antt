-- ===== src/Spsc.antt =====
-- The duplicator's thread (duplicator/duplicator.c, the loops over the copies) and a consumer
-- (lib/dup_intf.c, dup_loop) on one output queue, interleaved in any order. A step touches the other
-- side's volatile index at most once: a call of dup_queue_write_avali or dup_queue_read_avali is two or
-- three steps, with steps of the other side in between.
pub mod Inv
pub mod Producer
pub mod Consumer
pub mod Fifo
pub mod Drain
mod Tests
use dpa.Prelude.{
  ℕ, zero, suc, ◌+◌, ◌≡◌, ◌≢◌, ◌⊎◌, List, [], ◌∷◌, ◌++◌, Option, none, some, Bool, true, false,
}
use dpa.Prelude.Word.{ltb_i32}
use dpa.Queue.{
  DupQueue, read_avali_reads, read_adv, write_avali_reads, write_adv, widx_offset, slot_idx_next,
}
use dpa.Forward.{DupSlot, Copy, drop, store}

-- Where the producer is: between packets; in dup_queue_write_avali, for a packet or after a publication,
-- with what it has read of `ridx`; with a packet, after the look at the room; after a store; after a
-- publication, before the new look at the room.
pub data Pc : Type 0 where
  idle : Pc
  looks_once : Option DupSlot → ℕ → Pc
  looks_twice : Option DupSlot → ℕ → ℕ → Pc
  decide : DupSlot → Pc
  stored : Pc
  published : Pc

-- Where the producer goes on after the look.
abbrev pub resume : Option DupSlot → Pc
resume none = idle
resume (some x) = decide x

-- Where the consumer is: before a look; in dup_queue_read_avali, with what it has read of `widx`; or with
-- `done` of `ravali` packets read.
pub data Phase : Type 0 where
  waiting : Phase
  polls : ℕ → Phase
  reading : ℕ → ℕ → Phase

-- Memory and the producer's locals (`copy`), the consumer's local `ridx`, and the packets that the
-- producer stored and that the consumer's callback got, oldest first.
pub record World : Type 0 where
  pub copy : Copy
  pub pc : Pc
  pub ridx : ℕ
  pub phase : Phase
  pub accepted : List DupSlot
  pub delivered : List DupSlot

-- The same with another queue in memory.
abbrev pub with_queue : World → DupQueue → World
with_queue s q = record s { copy = record (s.copy) { queue = q } }

-- The end of a look at the room.
abbrev pub looked : World → Option DupSlot → ℕ → World
looked s x room = record s { copy = record (s.copy) { wavali = room }; pc = resume x }

pub data Step (s : World) : World → Type 0 where
  -- `if (wavali[i] == 0)`, and the first read of `ridx`, `q->widx > q->ridx`
  begin_room : (x : DupSlot) → s.pc ≡ idle → s.copy.wavali ≢ 0 → Step s (record s { pc = decide x })
  begin_look :
      (x : DupSlot)
      → s.pc ≡ idle
      → s.copy.wavali ≡ 0
      → Step s (record s { pc = looks_once (some x) s.copy.queue.ridx })
  -- the second read of `ridx`, `q->widx < q->ridx`
  look_again :
      (x : Option DupSlot) (r1 : ℕ)
      → s.pc ≡ looks_once x r1
      → ltb_i32 r1 s.copy.queue.widx ≡ false
      → ltb_i32 s.copy.queue.widx s.copy.queue.ridx ≡ true
      → Step s (record s { pc = looks_twice x r1 s.copy.queue.ridx })
  -- the second read of `ridx` is the last: it gives the count, or is not above `widx`
  looked_twice :
      (x : Option DupSlot) (r1 : ℕ)
      → s.pc ≡ looks_once x r1
      → (ltb_i32 r1 s.copy.queue.widx ≡ true)
        ⊎ (ltb_i32 s.copy.queue.widx s.copy.queue.ridx ≡ false)
      → Step s (looked s x (write_avali_reads s.copy.queue r1 s.copy.queue.ridx s.copy.queue.ridx))
  -- the third read of `ridx`, after both tests; `widx` is the producer's own
  looked_thrice :
      (x : Option DupSlot) (r1 r2 : ℕ)
      → s.pc ≡ looks_twice x r1 r2
      → ltb_i32 r1 s.copy.queue.widx ≡ false
      → Step s (looked s x (write_avali_reads s.copy.queue r1 r2 s.copy.queue.ridx))
  -- `drop_packets++; drop_bytes += len; continue`
  give_up :
      (x : DupSlot)
      → s.pc ≡ decide x
      → s.copy.wavali ≡ 0
      → Step s (record s { copy = drop s.copy x; pc = idle })
  -- the slot is filled and the local `widx` moved on
  put_slot :
      (x : DupSlot)
      → s.pc ≡ decide x
      → s.copy.wavali ≢ 0
      → Step s (record s { copy = store s.copy x; pc = stored; accepted = s.accepted ++ x ∷ [] })
  -- `DUP_QUEUE_WIDX_OFFSET(...) == wavali`
  go_on :
      s.pc ≡ stored
      → widx_offset s.copy.queue s.copy.widx ≢ s.copy.wavali
      → Step s (record s { pc = idle })
  publish_full :
      s.pc ≡ stored
      → widx_offset s.copy.queue s.copy.widx ≡ s.copy.wavali
      → Step s (record (with_queue s (write_adv s.copy.queue s.copy.wavali)) { pc = published })
  -- the end of a batch
  publish_rest :
      s.pc ≡ idle
      → widx_offset s.copy.queue s.copy.widx ≢ 0
      → Step s
          (record (with_queue s (write_adv s.copy.queue (widx_offset s.copy.queue s.copy.widx))) {
            pc = published;
          })
  nothing_left :
      s.pc ≡ idle → widx_offset s.copy.queue s.copy.widx ≡ 0 → Step s (record s { pc = published })
  -- `wavali[i] = dup_queue_write_avali(...)`, its first read of `ridx`
  look : s.pc ≡ published → Step s (record s { pc = looks_once none s.copy.queue.ridx })
  -- dup_queue_read_avali: the first read of `widx`, `q->widx > q->ridx`
  poll : s.phase ≡ waiting → Step s (record s { phase = polls s.copy.queue.widx })
  -- the second read, which gives the count: nothing, or `ravali`
  polled_none :
      (w1 : ℕ)
      → s.phase ≡ polls w1
      → read_avali_reads s.copy.queue w1 s.copy.queue.widx ≡ 0
      → Step s (record s { phase = waiting })
  polled :
      (w1 : ℕ)
      → s.phase ≡ polls w1
      → read_avali_reads s.copy.queue w1 s.copy.queue.widx ≢ 0
      → Step s (record s { phase = reading (read_avali_reads s.copy.queue w1 s.copy.queue.widx) 0 })
  -- the callback gets the packet at the local `ridx`, which moves on
  read_one :
      (ravali done : ℕ)
      → s.phase ≡ reading ravali done
      → ltb_i32 done ravali ≡ true
      → Step s (record s {
        ridx = slot_idx_next s.copy.queue s.ridx;
        phase = reading ravali (suc done);
        delivered = s.delivered ++ s.copy.slots s.ridx ∷ [];
      })
  -- dup_queue_read_adv
  release :
      (ravali done : ℕ)
      → s.phase ≡ reading ravali done
      → ltb_i32 done ravali ≡ false
      → Step s (record (with_queue s (read_adv s.copy.queue ravali)) { phase = waiting })

-- The start: a queue as dup_queue_init leaves it, or any other that is empty, whose indices both
-- sides have taken over.
pub data Reach (start : World) : World → Type 0 where
  here : Reach start start
  after : {s t : World} → Reach start s → Step s t → Reach start t

-- Where a call reads the other side's index for the last time: the tests that it has made come out as
-- they did. Queue.Races is about calls for which they do not.
abbrev pub Agrees : (s t : World) → Step s t → Type 0
Agrees s _ (looked_twice x r1 e h) =
    ltb_i32 r1 s.copy.queue.widx ≡ ltb_i32 s.copy.queue.ridx s.copy.queue.widx
Agrees s _ (looked_thrice x r1 r2 e h) =
    (ltb_i32 r1 s.copy.queue.widx ≡ ltb_i32 s.copy.queue.ridx s.copy.queue.widx)
    × (ltb_i32 s.copy.queue.widx r2 ≡ ltb_i32 s.copy.queue.widx s.copy.queue.ridx)
Agrees s _ (polled_none w1 e h) =
    ltb_i32 s.copy.queue.ridx w1 ≡ ltb_i32 s.copy.queue.ridx s.copy.queue.widx
Agrees s _ (polled w1 e h) =
    ltb_i32 s.copy.queue.ridx w1 ≡ ltb_i32 s.copy.queue.ridx s.copy.queue.widx
Agrees s _ _ = Unit {0}

abbrev pub IsSteady : {s t : World} → Reach s t → Type 0
IsSteady here = Unit {0}
IsSteady (after {s} {t} r step) = IsSteady r × Agrees s t step
