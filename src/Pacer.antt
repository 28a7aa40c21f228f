-- ===== src/Pacer.antt =====
-- The pacing of runtime/pacer.h and runtime/pacer.c: the virtual clock of one flow (`Flow`), and
-- the process-wide scheduler of pacing deadlines (`Heap`, `Sched`).
pub mod Flow
pub mod Heap
pub mod Sched
