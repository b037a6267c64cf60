-- ===== src/Proc.antt =====
-- kernel/proc/ and the signals of kernel/ipc/: processes, their table, the run queue.
pub mod Types
pub mod Memory
pub mod OpenFiles
pub mod Table
pub mod Sched
pub mod Signal
pub mod Start
pub mod UserStack
pub mod Elf
