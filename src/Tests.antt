-- ===== src/Tests.antt =====
-- Runs of the code on concrete data, and the theorems applied to such data.
pub mod Klib
pub mod Mm
pub mod Paging
pub mod Ipc
pub mod Drivers
pub mod Proc
pub mod Smp
pub mod SmpSched
pub mod Fs
pub mod Hash
pub mod Accounts
pub mod Stack
pub mod Slab
pub mod AccountFile
pub mod Syscall
