-- ===== src/Mm/Vmm.antt =====
-- mm/vmm.c: page tables. A table is a page of 512 words; memory is identity-mapped, so that its address
-- is the physical one, and NULL is 0, which the code reads and writes as a table where it does not look
-- at the result. `words` gives the 8-byte word at an address. `invlpg` and the loads of cr3 are left
-- out. The allocator of pages is a parameter.
pub mod Step
pub mod Map
pub mod Destroy
use mathlib.Core.Option
use sinux.Prelude.{
  ℕ, zero, suc, ◌+◌, ◌-◌, ◌*◌, ◌/◌, ◌%◌, ◌^◌, ◌≡◌, ◌≢◌, Bool, true, false, ◌&&◌, Option, none, some,
  if◌then◌else◌, ltb, leb, ◌==◌,
}
use sinux.Mm.Phys.{page_down}

-- The interface to mm/pmm.c: `none` is NULL.
pub record Allocator : Type 1 where
  pub State : Type 0
  pub alloc : State → Option ℕ × State

-- What the tables rely on: a page is aligned, not 0, and not one that was given out before.
pub record AllocatorLaws (pages : Allocator) : Type 1 where
  pub Owned : pages.State → ℕ → Type 0
  pub alloc-new :
      (s t : pages.State) (p : ℕ)
      → pages.alloc s ≡ (some p, t)
      → (p % 4096 ≡ 0) × (p ≢ 0) × (¬ (Owned s p)) × Owned t p
  pub alloc-keeps :
      (s t : pages.State) (o : Option ℕ) (q : ℕ) → pages.alloc s ≡ (o, t) → Owned s q → Owned t q

-- The four indices, from `(virt >> shift) & 0x1FF`.
abbrev pub index : ℕ → ℕ → ℕ
index shift virt = virt / 2 ^ shift % 512

-- `& VMM_PRESENT`
abbrev pub present : ℕ → Bool
present w = w % 2 == 1

-- `VMM_PRESENT | VMM_WRITABLE`, and `VMM_USER` if the flags have it
abbrev pub table_flags : ℕ → ℕ
table_flags flags = if flags / 4 % 2 == 1 then 7 else 3

-- The last entry; VMM_NX is bit 63.
unfoldable pub leaf : ℕ → ℕ → ℕ
leaf phys flags =
    let w = page_down phys + (flags % 4096 / 2 * 2 + 1) in
    if flags / 2 ^ 63 % 2 == 1 then w % 2 ^ 63 + 2 ^ 63 else w

module _ (pages : Allocator) where
  open pages use {State, alloc}

  pub record Vm : Type 0 where
    pub words : ℕ → ℕ
    pub free_pages : State

  abbrev pub entry : Vm → ℕ → ℕ → ℕ
  entry v t i = v.words (t + 8 * i)

  abbrev pub put_entry : Vm → ℕ → ℕ → ℕ → Vm
  put_entry v t i w = record v { words = λ a. if t + 8 * i == a then w else v.words a }

  -- `kmemset(page, 0, PAGE_SIZE)`
  abbrev pub clear_page : Vm → ℕ → Vm
  clear_page v p = record v { words = λ a. if leb p a && ltb a (p + 4096) then 0 else v.words a }

  -- A page's address ends in 12 zero bits, so that `page | flags` is their sum.
  unfoldable pub new_table : ℕ → ℕ → ℕ → Option ℕ × State → Vm → ℕ × Vm
  new_table t i flags (none, s) v = (0, record v { free_pages = s })
  new_table t i flags (some p, s) v = (
    page_down (p + flags),
    put_entry (clear_page (record v { free_pages = s }) p) t i (p + flags),
  )

  unfoldable pub get_or_alloc : ℕ → ℕ → ℕ → Vm → ℕ × Vm
  get_or_alloc t i flags v =
      if present (entry v t i)
      then (page_down (entry v t i), v)
      else new_table t i flags (alloc v.free_pages) v

  -- The three upper levels: the table of the last level.
  unfoldable pub map_tables : ℕ → ℕ → ℕ → Vm → ℕ × Vm
  map_tables pml4 virt flags v =
      let (pdpt, v1) = get_or_alloc pml4 (index 39 virt) flags v in
      let (pdt, v2) = get_or_alloc pdpt (index 30 virt) flags v1 in
      get_or_alloc pdt (index 21 virt) flags v2

  unfoldable pub vmm_map : ℕ → ℕ → ℕ → ℕ → Vm → Vm
  vmm_map pml4 virt phys flags v =
      let (pt, w) = map_tables pml4 virt (table_flags flags) v in
      put_entry w pt (index 12 virt) (leaf phys flags)

  -- `if (!(t[i] & VMM_PRESENT)) return`, and the next table.
  abbrev pub next_table : Option ℕ → ℕ → Vm → Option ℕ
  next_table none i v = none
  next_table (some t) i v = if present (entry v t i) then some (page_down (entry v t i)) else none

  unfoldable pub find_table : ℕ → ℕ → Vm → Option ℕ
  find_table pml4 virt v =
      next_table (next_table (next_table (some pml4) (index 39 virt) v) (index 30 virt) v)
        (index 21 virt) v

  unfoldable pub phys_in : Option ℕ → ℕ → Vm → ℕ
  phys_in none virt v = 0
  phys_in (some pt) virt v = page_down (entry v pt (index 12 virt))

  unfoldable pub vmm_get_phys : ℕ → ℕ → Vm → ℕ
  unfolding phys_in
  vmm_get_phys pml4 virt v = phys_in (find_table pml4 virt v) virt v

  unfoldable pub unmap_in : Option ℕ → ℕ → Vm → Vm
  unmap_in none virt v = v
  unmap_in (some pt) virt v = put_entry v pt (index 12 virt) 0

  unfoldable pub vmm_unmap : ℕ → ℕ → Vm → Vm
  unfolding unmap_in
  vmm_unmap pml4 virt v = unmap_in (find_table pml4 virt v) virt v

  -- The loop of `vmm_map_range`, of the pages left. The sums are 64 bits.
  unfoldable pub map_pages : ℕ → ℕ → ℕ → ℕ → ℕ → ℕ → Vm → Vm
  map_pages zero off pml4 virt phys flags v = v
  map_pages (suc n) off pml4 virt phys flags v =
      map_pages n (off + 4096) pml4 virt phys flags
        (vmm_map pml4 ((virt + off) % 2 ^ 64) ((phys + off) % 2 ^ 64) flags v)

  unfoldable pub vmm_map_range : ℕ → ℕ → ℕ → ℕ → ℕ → Vm → Vm
  vmm_map_range pml4 virt phys size flags v =
      map_pages ((size + 4095) / 4096) 0 pml4 virt phys flags v

  -- The kernel's half of a new table, i from 256 on.
  unfoldable pub copy_kernel : ℕ → ℕ → ℕ → ℕ → Vm → Vm
  copy_kernel zero i kernel pml4 v = v
  copy_kernel (suc n) i kernel pml4 v =
      copy_kernel n (i + 1) kernel pml4 (put_entry v pml4 i (entry v kernel i))

  unfoldable pub new_pml4 : ℕ → Option ℕ × State → Vm → ℕ × Vm
  new_pml4 kernel (none, s) v = (0, record v { free_pages = s })
  new_pml4 kernel (some p, s) v =
      let w = clear_page (record v { free_pages = s }) p in
      (p, if kernel == 0 then w else copy_kernel 256 256 kernel p w)

  -- `kernel_pml4` is the first argument.
  unfoldable pub vmm_new_pml4 : ℕ → Vm → ℕ × Vm
  unfolding new_pml4
  vmm_new_pml4 kernel v = new_pml4 kernel (alloc v.free_pages) v
