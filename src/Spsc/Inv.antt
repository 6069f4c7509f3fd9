-- ===== src/Spsc/Inv.antt =====
-- What holds in every state of producer and consumer.
use dpa.Prelude.{ℕ, ◌+◌, ◌-◌, ◌%◌, ◌≤◌, ◌<◌, ◌≡◌, ◌⊎◌, List, ◌++◌}
use dpa.Window.{window}
use dpa.Queue.{IsReady, used}
use dpa.Forward.{DupSlot}
use dpa.Forward.Put.{unpublished, filled}
use dpa.Spsc.{
  Pc, idle, looks_once, looks_twice, decide, stored, published, Phase, waiting, polls, reading,
  World,
}

-- Packets of the current run that the consumer has read but not released, and all of the run.
abbrev pub taken : Phase → ℕ
taken waiting = 0
taken (polls w1) = 0
taken (reading ravali done) = done

abbrev pub run : Phase → ℕ
run waiting = 0
run (polls w1) = 0
run (reading ravali done) = ravali

-- What the producer's cached room is worth at each point.
abbrev pub Cached : Pc → ℕ → ℕ → ℕ → ℕ → Type 0
Cached idle n u p w = (w + u < n) × (p ≤ w) × ((w ≡ 0) ⊎ (p < w))
Cached (looks_once x r1) n u p w = p ≡ 0
Cached (looks_twice x r1 r2) n u p w = p ≡ 0
Cached (decide x) n u p w = (w + u < n) × (p ≤ w) × ((w ≡ 0) ⊎ (p < w))
Cached stored n u p w = (w + u < n) × (p ≤ w)
Cached published n u p w = p ≡ 0

-- Packets that were stored and that the consumer has not read.
abbrev pub unread : World → List DupSlot
unread s = window s.copy.slots s.copy.queue.num_slots s.ridx (filled s.copy - taken s.phase)

pub record Inv (s : World) : Type 0 where
  pub ready : IsReady s.copy.queue
  pub widx_in : s.copy.widx < s.copy.queue.num_slots
  pub fits : filled s.copy < s.copy.queue.num_slots
  pub cached :
      Cached s.pc s.copy.queue.num_slots (used s.copy.queue) (unpublished s.copy) s.copy.wavali
  pub run_used : run s.phase ≤ used s.copy.queue
  pub taken_run : taken s.phase ≤ run s.phase
  pub ridx_at : s.ridx ≡ (s.copy.queue.ridx + taken s.phase) % s.copy.queue.num_slots
  pub fifo : s.accepted ≡ s.delivered ++ unread s
