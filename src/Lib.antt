-- ===== src/Lib.antt =====
-- tcp-shift is a TCP proxy that terminates connections with lwIP and sends with its own congestion
-- control. This library models the parts of it that decide when and how much is sent, and proves what
-- makes each of them correct.
--
-- The parts and how they meet. A congestion controller (src/cc) is a set of callbacks behind the
-- handle of src/cc/cc.c: the transport tells it ACKs, losses, ECN marks and timeouts, and it answers
-- with a policy of a window, `ssthresh` and a pacing rate. Where a controller leaves the rate at 0,
-- src/cc/transport_pacing.c derives one from the window, and the size of a batch from the rate. The
-- rate drives the clock of the flow in src/runtime/pacer.c, which lets a segment go or defers it to a
-- deadline; deferred flows wait in the scheduler of the same file, a binary heap of events with one
-- timer. In recovery, src/lwip/rack_tlp.c tells which segments are lost and when to probe, and
-- src/lwip/prr.c how many bytes each ACK lets out. The loss evidence of BBRv3 records the losses that
-- RACK tells, once for each transmission, and its rounds add them up. What the senders have queued is
-- charged to one budget in src/lwip/tcp_memory.c, which stands between the bridge and lwIP.
--
-- Files:
--   Prelude: names shared by all modules; Boolean tests, limits of the C integers, lists.
--   Pacer.Flow: the flow pacer of src/runtime/pacer.c and src/runtime/pacer.h. A return of -1 is
--     `none` or `invalid`.
--   Pacer.Heap, Pacer.Sched: the heap and the scheduler of src/runtime/pacer.c. The array is a
--     function from indices, of which `heap_len` cells are in use.
--   Prr: src/lwip/prr.c. Rack: src/lwip/rack_tlp.c.
--   Cc: src/cc/cc.h and src/cc/cc.c; Cc.Reno and Cc.Registry: src/cc/reno.c; Cc.Pacing:
--     src/cc/transport_pacing.c; Cc.BbrRecovery: src/cc/bbr_recovery.c;
--     Cc.Hystart: src/cc/cubic_hystart.c; Cc.Cubic: src/cc/cubic.c, and Cc.Cubic.Control:
--     src/cc/cubic_controller.c.
--   Cc.Bbr: src/cc/bbr.c, src/cc/bbr_drain.c and src/cc/bbr_pacing.c; Cc.Observation:
--     src/cc/observation.c.
--   Memory: src/lwip/tcp_memory.c; Memory.Connection has the wrappers around lwIP.
--   Service: src/service_config.c; a line is a list of bytes, the file a list of lines.
--   Evidence: src/lwip/bbr3_rack_evidence.c; Evidence.Round: src/lwip/bbr3_loss_round.c.
--   Tests: small runs, and each theorem at one input.
-- A structure is a record with the fields of the C structure; an operation is a function that takes
-- the state and gives the new one with the result. Functions keep their names, without the prefix of
-- their file. The children of a module hold its proofs.
--
-- Integers are natural numbers. An operation that can wrap in C has its wrap-around written out with
-- `u32` or `u64`; a saturating one is written as in the source. A difference is taken only where the
-- source has tested that it does not go below 0.
--
-- Loops: `sift_up` from index `i` has fuel `i`, since the index falls in each round; `sift_down` has
-- the number of cells in use as fuel, since the index rises in each round and stays below it. The heap
-- theorems hold for these fuels, so the loops end by themselves. The binary search for the cube root
-- has fuel 32, since each round halves an interval of less than 2^32 numbers. All other loops are
-- structural.
--
-- The operating system is a parameter: whether `realloc` and `timerfd_settime` succeed, and what
-- `timerfd_create`, `read`, `calloc` and lwIP's `tcp_write` return, are arguments of the
-- operations, and the theorems hold for all of them. The timer in a theorem is the deadline that
-- the scheduler has recorded as set, `armed_deadline_ns`; the kernel's own timer is not modelled.
-- The operations of a controller are a parameter of the handle, and the calls of the C library that
-- src/service_config.c makes are a record of functions.
--
-- Not modelled: the probe modes and the callbacks of BBR, the controller BBRv3 (but for its loss
-- evidence) and the selector (src/cc, src/lwip), which stand on the same boundary; the adapter and
-- the hooks on lwIP, since the code of lwIP is not in the repository; the event loop, the bridge
-- and the TUN interface; in src/lwip/tcp_memory.c the parsing of the environment's texts and the
-- reading of the limit files; the host integration in src/host, which calls the operating system
-- and external commands. Guards against null pointers are left out where no pointer of the program
-- is null there, and so is `errno`.
pub mod Prelude
pub mod Cc
pub mod Pacer
pub mod Prr
pub mod Rack
pub mod Evidence
pub mod Memory
pub mod Service
mod Tests
