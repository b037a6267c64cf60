-- ===== src/Fs.antt =====
-- kernel/fs: the file layer, the file system in memory, and the interface between the two.
pub mod Types
pub mod Ramfs
pub mod FileSystem
pub mod Vfs
