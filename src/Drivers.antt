-- ===== src/Drivers.antt =====
-- drivers: what they keep in memory.
pub mod Keyboard
