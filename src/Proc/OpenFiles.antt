-- ===== src/Proc/OpenFiles.antt =====
-- What kernel/syscall/syscall.c asks of kernel/fs/vfs.c. A file is named by a number, `none` is NULL;
-- `share` is `refcount++`.
use sinux.Prelude.{ℕ, Option, List, Ret}

pub record Files : Type 1 where
  pub State : Type 0
  pub vfs_open : List ℕ → ℕ → State → Option ℕ × State
  pub vfs_close : ℕ → State → State
  pub vfs_read : ℕ → ℕ → State → (Ret × List ℕ) × State
  pub vfs_write : ℕ → List ℕ → State → Ret × State
  pub share : ℕ → State → State
