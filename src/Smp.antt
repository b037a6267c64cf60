-- ===== src/Smp.antt =====
-- What the processors share: arch/x86_64/smp and kernel/scheduler.
pub mod Lock
pub mod Sched
