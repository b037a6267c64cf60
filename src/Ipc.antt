-- ===== src/Ipc.antt =====
-- kernel/ipc/: pipes and signals.
pub mod Pipe
