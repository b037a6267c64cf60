-- ===== src/Mm/Vmm/Map.antt =====
-- `vmm_map` and then `vmm_get_phys` or `vmm_unmap` of mm/vmm.c.
use sinux.Prelude.{
  ℕ, ◌+◌, ◌*◌, ◌/◌, ◌%◌, ◌^◌, ◌<◌, ◌≡◌, ◌≢◌, refl, sym, ap, ◌∙◌, ◌⊎◌, inl, inr, true, none, some,
  if◌then◌else◌, ◌==◌, Bool-cases, arith, neq_false, ==_refl,
}
use sinux.Mm.Phys.{page_down}
use sinux.Mm.Vmm.{
  Allocator, AllocatorLaws, present, index, table_flags, leaf, Vm, entry, put_entry, get_or_alloc,
  map_tables, vmm_map, next_table, find_table, phys_in, vmm_get_phys, unmap_in, vmm_unmap,
}
use sinux.Mm.Vmm.Step.{Tree, Room, Stepped, entry-ne, get_or_alloc-Stepped}

module _ (pages : Allocator) (laws : AllocatorLaws pages) where
  -- Entry i of table t is present and leads to u.
  abbrev Leads : Vm pages → ℕ → ℕ → ℕ → Type 0
  Leads v t i u = (present (entry pages v t i) ≡ true) × (page_down (entry pages v t i) ≡ u)

  -- The walk down of a memory to table pt, by the three upper indices.
  record Walk (level : ℕ → ℕ) (pml4 virt : ℕ) (v : Vm pages) (pt : ℕ) : Type 0 where
    tree : Tree pages laws level v
    pdpt : ℕ
    pdt : ℕ
    level4 : level pml4 ≡ 4
    level3 : level pdpt ≡ 3
    level2 : level pdt ≡ 2
    level1 : level pt ≡ 1
    step4 : Leads v pml4 (index 39 virt) pdpt
    step3 : Leads v pdpt (index 30 virt) pdt
    step2 : Leads v pdt (index 21 virt) pt

  next_table-Leads :
      (t i u : ℕ) (v : Vm pages) → Leads v t i u → next_table pages (some t) i v ≡ some u
  next_table-Leads t i u v (e, d) = rw (e, d) refl

  find_table-Leads :
      (pml4 virt pdpt pdt pt : ℕ) (v : Vm pages)
      → Leads v pml4 (index 39 virt) pdpt
      → Leads v pdpt (index 30 virt) pdt
      → Leads v pdt (index 21 virt) pt
      → find_table pages pml4 virt v ≡ some pt
  unfolding find_table
  find_table-Leads pml4 virt pdpt pdt pt v a b c =
      ap (λ o. next_table pages (next_table pages o (index 30 virt) v) (index 21 virt) v)
        (next_table-Leads pml4 (index 39 virt) pdpt v a)
      ∙ ap (λ o. next_table pages o (index 21 virt) v)
          (next_table-Leads pdpt (index 30 virt) pdt v b)
      ∙ next_table-Leads pdt (index 21 virt) pt v c

  Leads-same :
      (v w : Vm pages) (t i u : ℕ)
      → entry pages w t i ≡ entry pages v t i
      → Leads v t i u
      → Leads w t i u
  Leads-same v w t i u e (h, d) = (ap present e ∙ h, ap page_down e ∙ d)

  -- What a step leaves: the entries of tables of another level.
  other_level :
      {level : ℕ → ℕ} {t i : ℕ} {v : Vm pages} {r : ℕ × Vm pages}
      (s : Stepped pages laws level t i v r)
      → (x j : ℕ) → 0 < level x
      → j < 512
      → level x ≢ level t
      → entry pages r.1 x j ≡ entry pages v x j
  other_level {level = level} s x j l h ne = s.kept x j l h (inl (λ e. ne (ap level (sym e))))

  map_tables-Walk :
      (level : ℕ → ℕ) (pml4 virt flags : ℕ) (v : Vm pages)
      → Tree pages laws level v
      → level pml4 ≡ 4
      → flags % 2 ≡ 1
      → flags < 4096
      → Room pages laws 3 v.free_pages
      → (new : ℕ → ℕ) × Walk new pml4 virt
          (map_tables pages pml4 virt flags v).1
          (map_tables pages pml4 virt flags v).0
  unfolding map_tables
  map_tables-Walk level pml4 virt flags v tree top odd small room =
      let i4 = index 39 virt in
      let i3 = index 30 virt in
      let i2 = index 21 virt in
      let (a, room2) =
        get_or_alloc-Stepped pages laws level pml4 i4 flags 2 v tree (omega arith) (omega arith) odd
          small room in
      let (t3, v1) = get_or_alloc pages pml4 i4 flags v in
      let top1 : a.new_level pml4 ≡ 4 = a.levels_kept pml4 (omega arith) ∙ top in
      let below3 : a.new_level t3 ≡ 3 = omega (arith, a.below) in
      let (b, room1) =
        get_or_alloc-Stepped pages laws a.new_level t3 i3 flags 1 v1 a.tree (omega arith)
          (omega arith) odd small room2 in
      let (t2, v2) = get_or_alloc pages t3 i3 flags v1 in
      let top2 : b.new_level pml4 ≡ 4 = b.levels_kept pml4 (omega arith) ∙ top1 in
      let kept3 : b.new_level t3 ≡ 3 = b.levels_kept t3 (omega arith) ∙ below3 in
      let below2 : b.new_level t2 ≡ 2 = omega (arith, b.below) in
      let (c, room0) =
        get_or_alloc-Stepped pages laws b.new_level t2 i2 flags 0 v2 b.tree (omega arith)
          (omega arith) odd small room1 in
      let (t1, v3) = get_or_alloc pages t2 i2 flags v2 in
      (
        c.new_level,
        record {
          tree = c.tree;
          pdpt = t3;
          pdt = t2;
          level4 = c.levels_kept pml4 (omega arith) ∙ top2;
          level3 = c.levels_kept t3 (omega arith) ∙ kept3;
          level2 = c.levels_kept t2 (omega arith) ∙ below2;
          level1 = omega (arith, c.below);
          step4 =
              Leads-same v2 v3 pml4 i4 t3
                (other_level c pml4 i4 (omega arith) (omega arith) (omega arith))
                (Leads-same v1 v2 pml4 i4 t3
                  (other_level b pml4 i4 (omega arith) (omega arith) (omega arith))
                  (a.here, a.leads));
          step3 =
              Leads-same v2 v3 t3 i3 t2
                (other_level c t3 i3 (omega arith) (omega arith) (omega arith)) (b.here, b.leads);
          step2 = (c.here, c.leads);
        },
      )

  -- A write to the last table leaves the walk.
  put_entry-other :
      {level : ℕ → ℕ} {pml4 virt pt : ℕ} {v : Vm pages} (k : Walk level pml4 virt v pt)
      → (i w x j : ℕ) → i < 512
      → j < 512
      → 1 < level x
      → entry pages (put_entry pages v pt i w) x j ≡ entry pages v x j
  put_entry-other {level = level} {pt = pt} k i w x j hi hj h =
      let one = k.level1 in
      let apart : pt ≢ x = λ e. let same = ap level e in omega arith in
      rw
        (neq_false (pt + 8 * i) (x + 8 * j) (
          entry-ne pt x i j (k.tree.aligned pt (omega arith)) (k.tree.aligned x (omega arith)) hi hj
            (inl apart)))
        refl

  put_entry-found :
      {level : ℕ → ℕ} {pml4 virt pt : ℕ} {v : Vm pages}
      → Walk level pml4 virt v pt
      → (i w : ℕ) → i < 512
      → find_table pages pml4 virt (put_entry pages v pt i w) ≡ some pt
  put_entry-found {pml4 = pml4} {virt = virt} {pt = pt} {v = v} k i w hi =
      let u = put_entry pages v pt i w in
      let top = k.level4 in
      let three = k.level3 in
      let two = k.level2 in
      find_table-Leads pml4 virt k.pdpt k.pdt pt u
        (Leads-same v u pml4 (index 39 virt) k.pdpt
          (put_entry-other k i w pml4 (index 39 virt) hi (omega arith) (omega arith)) k.step4)
        (Leads-same v u k.pdpt (index 30 virt) k.pdt
          (put_entry-other k i w k.pdpt (index 30 virt) hi (omega arith) (omega arith)) k.step3)
        (Leads-same v u k.pdt (index 21 virt) pt
          (put_entry-other k i w k.pdt (index 21 virt) hi (omega arith) (omega arith)) k.step2)

  table_flags-odd : (flags : ℕ) → (table_flags flags % 2 ≡ 1) × (table_flags flags < 4096)
  table_flags-odd flags = elim (Bool-cases (flags / 4 % 2 == 1)) [
    | inl e ↦ rw e (refl, omega arith)
    | inr e ↦ rw e (refl, omega arith)
  ]

  -- In a tree of page tables, with three pages left for tables, the address that `vmm_map` maps is found
  -- by `vmm_get_phys`, as the page of the physical address that was asked for; with VMM_NX, bit 63 of
  -- the result is set.
  pub vmm_get_phys-map :
      (level : ℕ → ℕ) (pml4 virt phys flags : ℕ) (v : Vm pages)
      → Tree pages laws level v
      → level pml4 ≡ 4
      → Room pages laws 3 v.free_pages
      → phys < 2 ^ 63
      → vmm_get_phys pages pml4 virt (vmm_map pages pml4 virt phys flags v)
        ≡ (if flags / 2 ^ 63 % 2 == 1 then page_down phys + 2 ^ 63 else page_down phys)
  unfolding vmm_get_phys vmm_map phys_in leaf
  vmm_get_phys-map level pml4 virt phys flags v tree top room small =
      let (odd, low) = table_flags-odd flags in
      let (new, k) = map_tables-Walk level pml4 virt (table_flags flags) v tree top odd low room in
      let (pt, w) = map_tables pages pml4 virt (table_flags flags) v in
      let found = put_entry-found k (index 12 virt) (leaf phys flags) (omega arith) in
      rw (found, ==_refl (pt + 8 * index 12 virt))
        (elim (Bool-cases (flags / 2 ^ 63 % 2 == 1)) [
          | inl e ↦ rw e (omega arith)
          | inr e ↦ rw e (omega arith)
        ])

  -- The walk of `vmm_unmap` and `vmm_get_phys` stops at an entry that is not present, or goes down.
  find_table-Walk :
      (level : ℕ → ℕ) (pml4 virt : ℕ) (v : Vm pages)
      → Tree pages laws level v
      → level pml4 ≡ 4
      → (find_table pages pml4 virt v ≡ none)
        ⊎ ((pt : ℕ) × (find_table pages pml4 virt v ≡ some pt) × Walk level pml4 virt v pt)
  unfolding find_table
  find_table-Walk level pml4 virt v tree top =
      let i4 = index 39 virt in
      let i3 = index 30 virt in
      let i2 = index 21 virt in
      elim (Bool-cases (present (entry pages v pml4 i4))) [
        | inr a ↦ inl (rw a refl)
        | inl a ↦
            let pdpt = page_down (entry pages v pml4 i4) in
            let three : level pdpt ≡ 3 =
              omega (arith, tree.down pml4 i4 (omega arith) (omega arith) a) in
            elim (Bool-cases (present (entry pages v pdpt i3))) [
              | inr b ↦ inl (rw (a, b) refl)
              | inl b ↦
                  let pdt = page_down (entry pages v pdpt i3) in
                  let two : level pdt ≡ 2 =
                    omega (arith, tree.down pdpt i3 (omega arith) (omega arith) b) in
                  elim (Bool-cases (present (entry pages v pdt i2))) [
                    | inr c ↦ inl (rw (a, b, c) refl)
                    | inl c ↦ inr (
                      page_down (entry pages v pdt i2),
                      rw (a, b, c) refl,
                      record {
                        tree = tree;
                        pdpt = pdpt;
                        pdt = pdt;
                        level4 = top;
                        level3 = three;
                        level2 = two;
                        level1 = omega (arith, tree.down pdt i2 (omega arith) (omega arith) c);
                        step4 = (a, refl);
                        step3 = (b, refl);
                        step2 = (c, refl);
                      },
                    )
                  ]
            ]
      ]

  -- In a tree of page tables, `vmm_get_phys` gives 0 for an address that was just taken out by
  -- `vmm_unmap`, whether it was mapped or not.
  pub vmm_get_phys-unmap :
      (level : ℕ → ℕ) (pml4 virt : ℕ) (v : Vm pages)
      → Tree pages laws level v
      → level pml4 ≡ 4
      → vmm_get_phys pages pml4 virt (vmm_unmap pages pml4 virt v) ≡ 0
  unfolding vmm_get_phys vmm_unmap phys_in unmap_in
  vmm_get_phys-unmap level pml4 virt v tree top =
      elim (find_table-Walk level pml4 virt v tree top) [
        | inl e ↦ rw (e, e) refl
        | inr (pt, e, k) ↦
            let found = put_entry-found k (index 12 virt) 0 (omega arith) in
            rw (e, found, ==_refl (pt + 8 * index 12 virt)) refl
      ]
