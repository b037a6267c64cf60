-- ===== src/Tests/Paging.antt =====
-- mm/vmm.c over an allocator that gives out page after page, on an empty top table at 4096.
use sinux.Prelude.{ℕ, ◌+◌, ◌*◌, ◌≤◌, ◌<◌, ◌≡◌, refl, ap, some, if◌then◌else◌, ◌==◌, arith}
use sinux.Mm.Vmm.{Allocator, AllocatorLaws, Vm, vmm_map, vmm_get_phys, vmm_unmap}
use sinux.Mm.Vmm.Step.{Tree}
use sinux.Mm.Vmm.Destroy.{vmm_destroy_pml4}
use sinux.Mm.Vmm.Destroy.Frees.{GivenBack, vmm_destroy_pml4_lem}
use sinux.Mm.Vmm.Map.{vmm_get_phys-map, vmm_get_phys-unmap}

abbrev in_order : Allocator
in_order = record { State = ℕ; alloc = λ n. (some (4096 * (n + 1)), n + 1) }

some_inj : {a b : ℕ} → some a ≡ some b → a ≡ b
some_inj e = cc

abbrev in_order_laws : AllocatorLaws in_order
in_order_laws = record {
  Owned = λ n p. p ≤ 4096 * n;
  alloc-new = λ s t p e.
      let at : some (4096 * (s + 1)) ≡ some p = ap (λ r. r.0) e in
      let page = some_inj at in
      let next : s + 1 ≡ t = ap (λ r. r.1) e in
      (omega arith, (λ q. omega arith), (λ q. omega arith), omega arith);
  alloc-keeps = λ s t o q e own. let next : s + 1 ≡ t = ap (λ r. r.1) e in omega arith;
}

abbrev empty : Vm in_order
empty = record { words = λ a. 0; free_pages = 1 }

abbrev top_level : ℕ → ℕ
top_level x = if x == 4096 then 4 else 0

at_top : (x : ℕ) → 0 < top_level x → x ≡ 4096
at_top x h = ground arith

empty-Tree : Tree in_order in_order_laws top_level empty
empty-Tree = record {
  aligned = λ t h. let e = at_top t h in omega arith;
  owned = λ t h. let e = at_top t h in omega arith;
  down = λ t i h hi e. cc;
}

vmm_get_phys-map_example :
    vmm_get_phys in_order 4096 4194304 (vmm_map in_order 4096 4194304 81925 6 empty) ≡ 81920
vmm_get_phys-map_example =
    vmm_get_phys-map in_order in_order_laws top_level 4096 4194304 81925 6 empty empty-Tree refl
      (8192, 2, refl, (12288, 3, refl, (16384, 4, refl, record {}))) (omega arith)

vmm_get_phys-unmap_example :
    vmm_get_phys in_order 4096 4194304 (vmm_unmap in_order 4096 4194304 empty) ≡ 0
vmm_get_phys-unmap_example =
    vmm_get_phys-unmap in_order in_order_laws top_level 4096 4194304 empty empty-Tree refl

-- `pmm_free` that counts.
abbrev counts : ℕ → ℕ → ℕ
counts p n = n + 1

abbrev one_page : Vm in_order
one_page = vmm_map in_order 4096 4194304 81925 6 empty

vmm_destroy_pml4_lem_example :
    GivenBack in_order counts 4096 one_page (vmm_destroy_pml4 in_order counts 4096 one_page)
vmm_destroy_pml4_lem_example =
    vmm_destroy_pml4_lem in_order counts 4096 one_page (λ e. absurd (omega (arith, e)))
