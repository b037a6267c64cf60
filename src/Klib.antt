-- ===== src/Klib.antt =====
-- lib/: the kernel's own string functions, its message formats, and SHA-256.
pub mod Str
pub mod Printk
pub mod Sha256
