-- ===== src/Mm/Vmm/Destroy.antt =====
-- `vmm_destroy_pml4` of mm/vmm.c. `pmm_free` is a parameter, which changes the allocator's state alone, so
-- that the tables are read as they were before.
pub mod Reach
pub mod Frees
use sinux.Prelude.{
  ℕ_discrete, ℕ, zero, suc, ◌+◌, ◌*◌, ◌/◌, ◌%◌, ◌^◌, ◌<◌, ◌≤◌, ◌≡◌, refl, ap, sym, ◌∙◌, ◌≢◌, ◌↔◌,
  ◌⊎◌, inl, inr, Bool, true, false, Option, none, some, List, [], ◌∷◌, ◌++◌, if◌then◌else◌, ◌==◌,
  arith, Bool-cases, Option-cases, neq_false,
}
use sinux.Mm.Phys.{page_down}
use sinux.Mm.Vmm.{
  Allocator, Vm, entry, present, index, next_table, find_table, vmm_get_phys, phys_in,
}

module _ (pages : Allocator) (pmm_free : ℕ → pages.State → pages.State) where
  abbrev pub release : ℕ → Vm pages → Vm pages
  release p v = record v { free_pages = pmm_free p v.free_pages }

  -- One of the nested loops: n entries of table t from i on, with the body of the loop inside.
  unfoldable pub each_entry : (ℕ → Vm pages → Vm pages) → ℕ → ℕ → ℕ → Vm pages → Vm pages
  each_entry body zero i t v = v
  each_entry body (suc n) i t v =
      let w = entry pages v t i in
      each_entry body n (i + 1) t (if present w then body (page_down w) v else v)

  -- A table of the last level, and its pages; a table of the next level, and what is below it; and so on.
  unfoldable pub destroy_pt : ℕ → Vm pages → Vm pages
  destroy_pt pt v = release pt (each_entry release 512 0 pt v)

  unfoldable pub destroy_pdt : ℕ → Vm pages → Vm pages
  destroy_pdt pdt v = release pdt (each_entry destroy_pt 512 0 pdt v)

  unfoldable pub destroy_pdpt : ℕ → Vm pages → Vm pages
  destroy_pdpt pdpt v = release pdpt (each_entry destroy_pdt 512 0 pdpt v)

  unfoldable pub vmm_destroy_pml4 : ℕ → Vm pages → Vm pages
  vmm_destroy_pml4 pml4 v =
      if pml4 == 0 then v else release pml4 (each_entry destroy_pdpt 256 0 pml4 v)
