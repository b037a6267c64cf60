-- ===== src/Mm.antt =====
-- mm/: memory management.
pub mod Phys
pub mod Pmm
pub mod Vmm
pub mod Pages
pub mod Slab
