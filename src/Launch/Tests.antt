-- ===== src/Launch/Tests.antt =====
-- A run of the duplicator's main (duplicator/duplicator.c).
use dpa.Prelude.{
  ℕ, ◌+◌, ◌*◌, ◌≡◌, refl, List, [], ◌∷◌, true, false, none, some, arith, ◌==◌, if◌then◌else◌,
}
use dpa.Prelude.Word.{ltb_i32}
use dpa.Shm.{ShmCalls, shm_init, shm_sized, shm_mapped, round_up, hdr_size, data_size, page_align}
use dpa.Options.{
  GotOpt, opt_c, opt_a, DupOptions, minus_one, get_opt, set_affinity, take_opts, take_opt,
  take_name, set_copies, set_range, set_period, str2range, range_from, range_end, range_of,
  str2int32, is_huge, is_out_of_range, to_int32, is_bad_period, and_then,
}
use dpa.Options.Tests.{number, two_more, six}
use dpa.Launch.{
  proc_intel, Targs, no_targs, ThreadCalls, IocInfo, MainCalls, main_of, start_copies, dev_proc,
  with_queues, with_cpus, init_shm, address_of, shm_caps, create_threads, create_from,
  create_thread, registered_as, pin, out_queues, queue_of,
}
use dpa.Launch.Pinned.{OnCpus, main_of-OnCpus}

abbrev info : IocInfo
info = record { dev_model = 1; num_rx_queues = 3; buf_size = 2048; num_rx_slots = 256 }

abbrev shm : ShmCalls
shm = record {
  page_size = some 4096;
  opens = true;
  locks = true;
  empties = true;
  extends = true;
  map = some 65536;
}

-- The device cannot be opened for the second thread.
abbrev thread : ℕ → ThreadCalls
thread i =
    if i == 1
    then record { opened = minus_one; registered = none; create_fails = false }
    else record { opened = 4 + i; registered = some 8192; create_fails = false }

abbrev calls : MainCalls
calls = record {
  ctlfd = 3;
  info = some info;
  ncpus = 8;
  pow2 = λ n. n;
  shm = λ i. shm;
  dpaaddr = some 1048576;
  allocated = true;
  threads = thread;
}

abbrev opts : List (GotOpt ℕ)
opts = opt_c (some 1) ∷ opt_a (some 1) ∷ []

abbrev options : DupOptions ℕ
options = record {
  if_name = some 7;
  queue_id = minus_one;
  copies = 1;
  affinity_flag = true;
  affinity_begin = 1;
  affinity_end = 3;
  num_queues = 3;
  rpt_period = 300;
}

abbrev targs : ℕ → ℕ → ℕ → Targs
targs i fd cpu = record {
  used = true;
  fd = fd;
  dif = some 1056768;
  queue_id = i;
  affinity = cpu;
  copies = 1;
  out_queue = some (65560 + i * 48) ∷ [];
  proc_cb = some proc_intel;
}

abbrev threads : List Targs
threads = targs 0 4 1 ∷ record no_targs { fd = minus_one } ∷ targs 2 6 2 ∷ []

runs : main_of calls (get_opt number two_more six opts (some 7)) ≡ some (options, threads)
unfolding get_opt take_opts take_opt take_name set_copies set_range set_period str2range range_from
    range_end range_of str2int32 is_huge is_out_of_range to_int32 is_bad_period and_then ltb_i32
    set_affinity main_of start_copies dev_proc with_queues with_cpus init_shm address_of shm_caps
    create_threads create_from create_thread registered_as pin out_queues queue_of shm_init
    shm_sized shm_mapped round_up hdr_size data_size page_align
runs = refl

main_of-OnCpus_example : OnCpus calls info (omega arith) (omega arith) (options, threads)
main_of-OnCpus_example =
    main_of-OnCpus calls info (omega arith) (omega arith) number two_more six opts (some 7) options
      threads refl runs refl (omega arith)
