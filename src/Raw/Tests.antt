-- ===== src/Raw/Tests.antt =====
-- Runs of the receiving loops of lib/raw_intf.c on a ring of three slots.
use dpa.Prelude.{◌∷◌, [], List, ◌≡◌, true, arith}
use dpa.Ring.{DpaRing}
use dpa.Window.{window}
use dpa.Raw.{Call, recv_turn, recv_intel}
use dpa.Raw.Recv.{run_each, same_index, recv_turn-run_each}

abbrev three_slots : DpaRing
three_slots = record {
  buf_ofs = 0;
  num_slots = 3;
  avail = 2;
  cur = 2;
  reserved = 0;
  hw_ofs = 0;
  buf_size = 2048;
  slot =
      record { buf_idx = 4; len = 60; info = 0 }
      ∷ record { buf_idx = 5; len = 70; info = 0 }
      ∷ record { buf_idx = 6; len = 80; info = 0 }
      ∷ [];
}

-- The caller keeps the calls, the last first.
abbrev keep : Call → List Call → List Call
keep c cs = c ∷ cs

recv_turn-run_each_example : recv_turn (recv_intel keep) true three_slots [] ≡ (
  record three_slots { avail = 0; cur = 1 },
  run_each (recv_intel keep three_slots) (window same_index 3 2 2) [],
)
recv_turn-run_each_example =
    recv_turn-run_each (recv_intel keep) three_slots [] (omega arith) (omega arith)
      (λ e. absurd (omega (arith, e))) (omega arith)

-- Of four queues, number 1 is refused, and number 6, which does not exist, is not.
