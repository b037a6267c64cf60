-- ===== src/Core.antt =====
-- kernel/core: the accounts.
pub mod Auth
