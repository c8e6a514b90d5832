-- ===== src/Scheduler/Workers.antt =====
-- What the counters of East/src/Scheduler.cc count, over every interleaving of its threads.
pub mod Counts
pub mod Quiet
