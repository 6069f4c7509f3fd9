-- ===== src/Queue/Tests.antt =====
-- Runs of the slot ring of duplicator/queue.c on four slots.
use dpa.Prelude.{◌+◌, ◌-◌, ◌^◌, ◌≡◌, arith, refl}
use dpa.Prelude.Word.{ltb_i32}
use dpa.Queue.{
  DupQueue, IsReady, read_avali, write_avali, read_adv, write_adv, read_avali_reads,
  write_avali_reads,
}
use dpa.Queue.Counts.{adv-counts}
use dpa.Queue.Races.{write_avali_reads_drained, read_avali_reads_wrapped}

-- Write index 3, read index 2: one slot to read, two to write.
abbrev four_slots : DupQueue
four_slots = record {
  queue_id = 0;
  num_slots = 4;
  slot_size = 2048;
  widx = 3;
  ridx = 2;
  mask = 3;
  drop_packets = 0;
  drop_bytes = 7;
  slot_offs = 128;
}

four_slots-IsReady : IsReady four_slots
four_slots-IsReady = record {
  log = 2;
  size = refl;
  mask_eq = refl;
  small = omega arith;
  widx_in = omega arith;
  ridx_in = omega arith;
}

counted : (read_avali four_slots ≡ 1) × (write_avali four_slots ≡ 2)
unfolding read_avali write_avali ltb_i32
counted = (refl, refl)

wrapped : (write_adv four_slots 2).widx ≡ 1
unfolding write_adv
wrapped = refl

adv-counts_example :
    (read_avali four_slots + write_avali four_slots ≡ 3)
    × (IsReady (write_adv four_slots 2)
        × (read_avali (write_adv four_slots 2) ≡ read_avali four_slots + 2)
        × (write_avali (write_adv four_slots 2) + 2 ≡ write_avali four_slots))
    × (IsReady (read_adv four_slots 1)
        × (read_avali (read_adv four_slots 1) + 1 ≡ read_avali four_slots)
        × (write_avali (read_adv four_slots 1) ≡ write_avali four_slots + 1))
adv-counts_example =
    adv-counts four_slots-IsReady 2 1 (unfold write_avali ltb_i32 in omega arith)
      (unfold read_avali ltb_i32 in omega arith)

write_avali_reads_drained_example : write_avali_reads four_slots 2 3 3 ≡ 2 ^ 32 - 1
write_avali_reads_drained_example = write_avali_reads_drained four_slots-IsReady (omega arith) 3

read_avali_reads_wrapped_example : read_avali_reads four_slots 3 0 ≡ 2 ^ 32 - 2
read_avali_reads_wrapped_example =
    read_avali_reads_wrapped 0 four_slots-IsReady (omega arith) (omega arith)
