-- ===== src/Lib.antt =====
-- DPA, direct packet access: a kernel module that lets network drivers put received packets in
-- memory shared with processes, a library that reads that memory, and a duplicator that copies
-- each packet to several consumers. C code under kernel/, lib/ and duplicator/.
--
-- Queue: the ring of packet slots that one producer and one consumer share (duplicator/queue.c,
-- duplicator/queue.h, copied in lib/dup_queue.c). Queue.init, read_avali, write_avali, read_adv and
-- write_adv are dup_queue_init, dup_queue_read_avali and so on. An int32_t is its two's complement
-- pattern, a number below 2 ^ 32; Word.add32 and Word.sub32 wrap around.
-- Forward: duplicator/duplicator.c, what dup_proc_intel and dup_proc_bnx2 do with a packet
-- (Forward.put), with the end of a batch (Forward.flush) and with a whole turn of their loop
-- (Forward.Batch). What poll returns and what the packet buffers hold are arguments.
-- Ring: kernel/dpa_c.h, kernel/dpa_k.h and lib/dpa_u.h, the ring that the kernel shares with a
-- process, and the maps between its indices and the card's.
-- Pool: kernel/dpa_mem.c, the pools of objects behind a bitmap: allocation and release
-- (Pool.obj_malloc, Pool.obj_free_index), addresses and offsets, the buffers of a ring, and in
-- Pool.Build the construction of a pool, where what kmalloc, vmalloc and __get_free_pages return is
-- an argument.
-- Ring.Reinit: dpa_ring_reinit of kernel/dpa_main.c.
-- Sync: igb_dpa_rx_sync of drivers/igb-3.0.6/igb_dpa.h. Its two loops have one turn of fuel more than
-- the ring has slots, which is enough where each turn takes another slot.
-- Sync.Endless is about a process that spoils `reserved`.
-- Session: dpa_set_ring_id, dpa_poll and DIOCRXSYNC of kernel/dpa_main.c; the driver's rx_sync is an
-- argument.
-- Consume: dup_loop of lib/dup_intf.c, the consumer of one of the duplicator's queues.
-- Raw: lib/raw_intf.c, the loops that read the kernel's ring without the duplicator, and
-- raw_get_rx_stats.
-- Spsc: producer and consumer of one queue step by step, in any order; each read of the other side's
-- volatile index is a step of its own.
-- Netdev: kernel/dpa_main.c, an interface as the module sees it: references to it and to its driver's
-- module, dpa_attach, dpa_detach, dpa_reset, dpa_rx_irq. The kernel's lookup of names and its verdict on
-- modules are arguments.
-- Memory: kernel/dpa_mem.c, the three pools (Memory.Setup), and dpa_new_if, which gives a process the
-- interface's object, rings and buffers.
-- Registry: kernel/dpa_main.c, dpa_reg_if, the destructor and dpa_release; Registry.Life is the same as
-- steps of several processes between which the registration lock is given up. The driver's callback
-- is an argument; Registry.Igb is that of the igb driver, drivers/igb-3.0.6/igb_dpa.h.
-- Entry: kernel/dpa_main.c, the parameters, loading and unloading, dpa_mmap, and dpa_ioctl (Entry.Ioctl).
-- Client: lib/libdpa.c and the openings and closings of lib/raw_intf.c and lib/dup_intf.c, by what they
-- do to the process's descriptors and mappings, and dup_get_rx_stats.
-- Bnx2: drivers/bnx2-2.1.11/bnx2_dpa.h, bnx2_dpa_rx_sync (Bnx2.reap_all, give_back_all and rx_sync), whose
-- first loop has rx_ring_size turns and whose second one turn of fuel more than the ring has slots;
-- Bnx2.Config has bnx2_dpa_conf_rx_ring, bnx2_dpa_reg, bnx2_dpa_attach and, of bnx2.c, the size of the
-- card's ring (bnx2_find_max_ring, bnx2_set_rx_ring_size); Bnx2 has bnx2_get_hw_rx_cons of it, and the
-- macros and types of bnx2.h.
-- Intel: drivers/igb-3.0.6/igb_dpa.h and drivers/ixgbe-3.4.8/ixgbe_dpa.h, what Sync and Registry.Igb leave.
-- Stats: the callbacks get_rx_stats of the three drivers, beneath the dpa_ioctl of Entry.Ioctl.
-- Shm: duplicator/shm.c, dup_shm_init, which lays out the memory that Client's dup_open maps.
-- Options: duplicator/options.c, the command line and the range of CPUs; what strtol and getopt_long give is
-- an argument.
-- Launch: duplicator/duplicator.c, main and dup_create_threads up to the start of the threads.
-- Window: memory as a function of the slot's index, and the slots of a ring that are in use.
--
-- In Queue, Forward and Consume an operation of one side is one step, during which the other side rests.
-- dup_queue_read_avali and dup_queue_write_avali read the other side's index several times: Spsc takes these
-- reads apart, and Queue.Races is about what they return when the index moves between them.
--
-- Not modelled: the vendors' driver code under drivers/, which is all but the files *_dpa.h
-- and the functions of bnx2.c and bnx2.h that Bnx2 names, the duplicator's report of statistics, the texts of errors, tools/ and scripts/.
-- Locks, wait queues, messages and the time stamps of rings are left out.
pub mod Prelude
pub mod Queue
pub mod Window
pub mod Ring
pub mod Forward
pub mod Pool
pub mod Sync
pub mod Raw
pub mod Session
pub mod Consume
pub mod Spsc
pub mod Netdev
pub mod Memory
pub mod Registry
pub mod Entry
pub mod Bnx2
pub mod Shm
pub mod Stats
pub mod Intel
pub mod Options
pub mod Launch
pub mod Client
