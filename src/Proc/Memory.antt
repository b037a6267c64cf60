-- ===== src/Proc/Memory.antt =====
-- What processes need of mm/pmm.c and mm/vmm.c: pages and address spaces, over a state of memory
-- of which a process sees nothing else. An address 0 is NULL.
use sinux.Prelude.{ℕ}

pub record Memory : Type 1 where
  pub State : Type 0
  pub pmm_alloc : State → ℕ × State
  pub pmm_free : ℕ → State → State
  pub zero_page : ℕ → State → State  -- `kmemset(page, 0, PAGE_SIZE)`
  pub vmm_kernel_pml4 : State → ℕ
  pub vmm_new_pml4 : State → ℕ × State
  pub vmm_destroy_pml4 : ℕ → State → State
