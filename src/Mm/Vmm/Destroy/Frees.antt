-- ===== src/Mm/Vmm/Destroy/Frees.antt =====
-- What `vmm_destroy_pml4` of mm/vmm.c hands to `pmm_free`.
use mathlib.Core.Option.{some-injective}
use mathlib.Core.Path.{subst}
use sinux.Prelude.{
  ℕ, zero, suc, ◌+◌, ◌*◌, ◌^◌, ◌≤◌, ◌<◌, ◌≡◌, refl, ap, sym, ◌∙◌, ◌≢◌, ◌↔◌, ◌⊎◌, inl, inr, true,
  Option, none, some, List, [], ◌∷◌, ◌++◌, arith, Bool-cases, neq_false,
}
use sinux.Mm.Phys.{page_down}
use sinux.Mm.Vmm.{Allocator, Vm, present, index, next_table, find_table, vmm_get_phys, phys_in}
use sinux.Mm.Vmm.Destroy.{
  release, each_entry, destroy_pt, destroy_pdt, destroy_pdpt, vmm_destroy_pml4,
}
use sinux.Mm.Vmm.Destroy.Reach.{
  listed, freed, Within, In, In-++_left, In-++_right, In-++, listed-Through, Through-listed,
  Within-next, freed_iff,
}

module _ (pages : Allocator) (pmm_free : ℕ → pages.State → pages.State) where
  -- The allocator after `pmm_free` of these numbers, in order.
  unfoldable pub free_all : List ℕ → pages.State → pages.State
  free_all [] s = s
  free_all (p ∷ ps) s = free_all ps (pmm_free p s)

  free_all-++ :
      (ps qs : List ℕ) (s : pages.State) → free_all (ps ++ qs) s ≡ free_all qs (free_all ps s)
  unfolding free_all
  free_all-++ [] qs s = refl
  free_all-++ (p ∷ ps) qs s = free_all-++ ps qs (pmm_free p s)

  -- With tables w, the body hands the numbers that f lists to `pmm_free`, and nothing else changes.
  abbrev Frees : (ℕ → Vm pages → Vm pages) → (ℕ → List ℕ) → (ℕ → ℕ) → Type 0
  Frees body f w =
      (p : ℕ) (s : pages.State)
      → body p (record { words = w; free_pages = s })
        ≡ record { words = w; free_pages = free_all (f p) s }

  each_entry-listed :
      (body : ℕ → Vm pages → Vm pages) (f : ℕ → List ℕ) (w : ℕ → ℕ)
      → Frees body f w
      → (n i t : ℕ) (s : pages.State)
      → each_entry pages pmm_free body n i t (record { words = w; free_pages = s })
        ≡ record { words = w; free_pages = free_all (listed f n i t w) s }
  unfolding each_entry free_all listed
  each_entry-listed body f w h zero i t s = refl
  each_entry-listed body f w h (suc n) i t s = elim (Bool-cases (present (w (t + 8 * i)))) [
    | inl e ↦
        let p = page_down (w (t + 8 * i)) in
        rw (e, h p s, free_all-++ (f p) (listed f n (i + 1) t w) s)
          (each_entry-listed body f w h n (i + 1) t (free_all (f p) s))
    | inr e ↦ rw e (each_entry-listed body f w h n (i + 1) t s)
  ]

  destroy-Frees :
      (body : ℕ → Vm pages → Vm pages) (f : ℕ → List ℕ) (w : ℕ → ℕ) (n : ℕ)
      → Frees body f w
      → Frees
          (λ t v. release pages pmm_free t (each_entry pages pmm_free body n 0 t v))
          (λ t. listed f n 0 t w ++ (t ∷ []))
          w
  unfolding free_all
  destroy-Frees body f w n h t s =
      ap (release pages pmm_free t) (each_entry-listed body f w h n 0 t s)
      ∙ ap (λ x. record { words = w; free_pages = x })
          (sym (free_all-++ (listed f n 0 t w) (t ∷ []) s))

  abbrev levels : ℕ → ℕ → Vm pages → Vm pages
  levels zero = release pages pmm_free
  levels (suc k) = λ t v. release pages pmm_free t (each_entry pages pmm_free (levels k) 512 0 t v)

  levels-Frees : (k : ℕ) (w : ℕ → ℕ) → Frees (levels k) (λ p. freed k p w) w
  unfolding freed free_all
  levels-Frees zero w p s = refl
  levels-Frees (suc k) w p s =
      destroy-Frees (levels k) (λ p. freed k p w) w 512 (levels-Frees k w) p s

  -- The number x belongs to the address space: its top table, or an entry's of a tree below the user's half
  -- of it.
  abbrev pub IsUser : ℕ → ℕ → (ℕ → ℕ) → Type 0
  IsUser pml4 x w =
      (x ≡ pml4)
      ⊎ ((i : ℕ) × (i < 256)
          × (present (w (pml4 + 8 * i)) ≡ true)
          × Within 3 (page_down (w (pml4 + 8 * i))) x w)

  -- What `vmm_destroy_pml4` hands to `pmm_free`.
  unfoldable user_pages : ℕ → (ℕ → ℕ) → List ℕ
  user_pages pml4 w = listed (λ p. freed 3 p w) 256 0 pml4 w ++ (pml4 ∷ [])

  user_pages_iff : (pml4 x : ℕ) (w : ℕ → ℕ) → In x (user_pages pml4 w) ↔ IsUser pml4 x w
  unfolding user_pages
  user_pages_iff pml4 x w =
      let f : ℕ → List ℕ = λ p. freed 3 p w in
      (
        (λ m. elim (In-++ x (listed f 256 0 pml4 w) (pml4 ∷ []) m) [
          | inl m ↦
              let (j, a, b, e, below) = listed-Through f 256 0 pml4 x w m in
              inr (j, omega arith, e, (freed_iff 3 _ x w).0 below)
          | inr m ↦ elim m [ inl e ↦ inl e | inr z ↦ absurd z ]
        ]),
        (λ h. elim h [
          | inl e ↦ In-++_right x (listed f 256 0 pml4 w) (pml4 ∷ []) (inl e)
          | inr (j, b, e, below) ↦ In-++_left x (listed f 256 0 pml4 w) (pml4 ∷ []) (
              Through-listed f 256 0 pml4 x w
                (j, omega arith, omega arith, e, (freed_iff 3 _ x w).1 below))
        ]),
      )

  vmm_destroy_pml4-user_pages :
      (pml4 : ℕ) (v : Vm pages)
      → pml4 ≢ 0
      → vmm_destroy_pml4 pages pmm_free pml4 v
        ≡ record v { free_pages = free_all (user_pages pml4 v.words) v.free_pages }
  unfolding vmm_destroy_pml4 destroy_pdpt destroy_pdt destroy_pt user_pages
  vmm_destroy_pml4-user_pages pml4 v ne = rw (neq_false pml4 0 ne) (
      destroy-Frees (levels 3) (λ p. freed 3 p v.words) v.words 256 (levels-Frees 3 v.words) pml4
        v.free_pages)

  next_table-some :
      (o : Option ℕ) (i p : ℕ) (v : Vm pages)
      → next_table pages o i v ≡ some p
      → (t : ℕ) × (o ≡ some t)
        × (present (v.words (t + 8 * i)) ≡ true)
        × (page_down (v.words (t + 8 * i)) ≡ p)
  next_table-some none i p v e = cc
  next_table-some (some t) i p v e = elim (Bool-cases (present (v.words (t + 8 * i)))) [
    | inl b ↦ (t, refl, b, some-injective _ _ (rw b at e))
    | inr b ↦ cc (rw b at e)
  ]

  vmm_get_phys-some :
      (pml4 virt pt : ℕ) (v : Vm pages)
      → find_table pages pml4 virt v ≡ some pt
      → vmm_get_phys pages pml4 virt v ≡ page_down (v.words (pt + 8 * index 12 virt))
  unfolding vmm_get_phys phys_in
  vmm_get_phys-some pml4 virt pt v e = rw e refl

  mapped-IsUser :
      (pml4 virt pt : ℕ) (v : Vm pages)
      → virt < 2 ^ 47
      → find_table pages pml4 virt v ≡ some pt
      → present (v.words (pt + 8 * index 12 virt)) ≡ true
      → IsUser pml4 (vmm_get_phys pages pml4 virt v) v.words
  unfolding find_table
  mapped-IsUser pml4 virt pt v h e leaf =
      let x = vmm_get_phys pages pml4 virt v in
      let w = v.words in
      let (pdt, a, ea, pa) = next_table-some _ (index 21 virt) pt v e in
      let (pdpt, b, eb, pb) = next_table-some _ (index 30 virt) pdt v a in
      let (top, c, ec, pc) = next_table-some (some pml4) (index 39 virt) pdpt v b in
      let q : top ≡ pml4 = sym (some-injective _ _ c) in
      let in_pt =
        Within-next 0 pt (index 12 virt) x x w (omega arith) leaf
          (sym (vmm_get_phys-some pml4 virt pt v e)) refl in
      let in_pdt = Within-next 1 pdt (index 21 virt) pt x w (omega arith) ea pa in_pt in
      let in_pdpt = Within-next 2 pdpt (index 30 virt) pdt x w (omega arith) eb pb in_pdt in
      inr (
        index 39 virt,
        omega arith,
        rw q at ec,
        subst (λ p. Within 3 p x w) (sym (rw q at pc)) in_pdpt,
      )

  -- What is handed to `pmm_free`, between v and r.
  pub record GivenBack (pml4 : ℕ) (v r : Vm pages) : Type 0 where
    pub freed_pages : List ℕ
    pub changes : r ≡ record v { free_pages = free_all freed_pages v.free_pages }
    pub exact : (x : ℕ) → In x freed_pages ↔ IsUser pml4 x v.words
    pub mapped :
        (virt pt : ℕ)
        → virt < 2 ^ 47
        → find_table pages pml4 virt v ≡ some pt
        → present (v.words (pt + 8 * index 12 virt)) ≡ true
        → In (vmm_get_phys pages pml4 virt v) freed_pages
    pub no_execute :
        (virt pt : ℕ)
        → find_table pages pml4 virt v ≡ some pt
        → 2 ^ 63 ≤ v.words (pt + 8 * index 12 virt)
        → 2 ^ 63 ≤ vmm_get_phys pages pml4 virt v

  -- `vmm_destroy_pml4` of a table that is not NULL writes no table, and hands a list of numbers to
  -- `pmm_free`, in order. A number is in the list exactly if it is the top table or is reached from its
  -- user half over present entries, where the number of an entry, of a table or of a page that is mapped,
  -- is its word without the low 12 bits. So the list has what `vmm_get_phys` gives for each address
  -- below 2^47 that is mapped. That is the page only if the entry's bit 63, VMM_NX, is 0: with it, the number
  -- is 2^63 or more, which is no page.
  pub vmm_destroy_pml4_lem :
      (pml4 : ℕ) (v : Vm pages)
      → pml4 ≢ 0
      → GivenBack pml4 v (vmm_destroy_pml4 pages pmm_free pml4 v)
  vmm_destroy_pml4_lem pml4 v ne = record {
    freed_pages = user_pages pml4 v.words;
    changes = vmm_destroy_pml4-user_pages pml4 v ne;
    exact = λ x. user_pages_iff pml4 x v.words;
    mapped = λ virt pt h e leaf.
        (user_pages_iff pml4 _ v.words).1 (mapped-IsUser pml4 virt pt v h e leaf);
    no_execute = λ virt pt e high. rw (vmm_get_phys-some pml4 virt pt v e) (omega arith);
  }
