-- ===== src/Mm/Pages.antt =====
-- What mm/slab.c and the heaps of mm/vmm.c ask of mm/pmm.c: pages by their addresses, 0 for NULL.
use sinux.Prelude.{ℕ, ◌%◌, ◌≡◌, ◌≢◌}

pub record Pages : Type 1 where
  pub State : Type 0
  pub alloc : State → ℕ × State
  pub free : State → ℕ → State

-- A page given out is aligned, not at 0, and new, and stays the client's until the client frees it.
pub record PagesLaws (pages : Pages) : Type 1 where
  pub Sound : pages.State → Type 0
  pub Owned : pages.State → ℕ → Type 0
  pub alloc-Sound : (s : pages.State) → Sound s → Sound (pages.alloc s).1
  pub alloc-new :
      (s : pages.State)
      → Sound s
      → (pages.alloc s).0 ≢ 0
      → ((pages.alloc s).0 % 4096 ≡ 0)
        × ¬ Owned s (pages.alloc s).0
        × Owned (pages.alloc s).1 (pages.alloc s).0
  pub alloc-keeps : (s : pages.State) (q : ℕ) → Sound s → Owned s q → Owned (pages.alloc s).1 q
  pub free-Sound : (s : pages.State) (p : ℕ) → Sound s → Owned s p → Sound (pages.free s p)
  pub free-keeps :
      (s : pages.State) (p q : ℕ)
      → Sound s
      → Owned s p
      → Owned s q
      → p ≢ q
      → Owned (pages.free s p) q
