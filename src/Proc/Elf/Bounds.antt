-- ===== src/Proc/Elf/Bounds.antt =====
-- Where kernel/proc/elf.c maps pages, and which bytes it copies.
use sinux.Prelude.{
  ℕ, zero, suc, ◌+◌, ◌-◌, ◌/◌, ◌%◌, ◌≤◌, ◌≡◌, refl, ◌≢◌, inl, inr, false, List, [], ◌∷◌, ◌++◌, ltb,
  ◌==◌, Bool-cases, arith,
}
use sinux.Mm.Phys.{Mem, page_size}
use sinux.Proc.Memory.{Memory}
use sinux.Proc.Elf.{
  Phdr, Mapped, seg_start, seg_end, user_load_base, phdr_at, is_skipped, Loaded, load_pages,
  load_from, elf_validate, elf_load,
}

-- All pages are whole, at or above the user base, and not NULL.
abbrev pub InUser : List Mapped → Type 0
InUser [] = Unit
InUser (p ∷ l) = (user_load_base ≤ p.va) × (p.va % page_size ≡ 0) × (p.page ≢ 0) × InUser l

InUser-append : (l : List Mapped) (p : Mapped) → InUser l → InUser (p ∷ []) → InUser (l ++ p ∷ [])
InUser-append [] p a b = b
InUser-append (q ∷ l) p (x, y, z, a) b = (x, y, z, InUser-append l p a b)

module _ (m : Memory) where
  load_pages-InUser :
      (n va : ℕ) (ph : Phdr) (s : Loaded m)
      → user_load_base ≤ va
      → va % page_size ≡ 0
      → InUser s.pages
      → InUser (load_pages m n va ph s).1.pages
  unfolding load_pages
  load_pages-InUser zero va ph s low whole h = h
  load_pages-InUser (suc n) va ph s low whole h =
      elim (Bool-cases ((m.pmm_alloc s.memory).0 == 0)) [
        | inl e ↦ rw e h
        | inr ne ↦ rw ne (
            load_pages-InUser n (va + page_size) ph _ (omega arith) (omega arith)
              (InUser-append s.pages _ h (low, whole, ground arith, tt)))
      ]

  load_from-InUser :
      (n i : ℕ) (d : Mem) (load_end : ℕ) (s : Loaded m)
      → InUser s.pages
      → InUser (load_from m n i d load_end s).1.pages
  unfolding load_from
  load_from-InUser zero i d load_end s h = h
  load_from-InUser (suc n) i d load_end s h = elim (Bool-cases (is_skipped (phdr_at d i))) [
    | inl e ↦ rw e (load_from-InUser n (i + 1) d load_end s h)
    | inr ne ↦ elim (Bool-cases (ltb (phdr_at d i).p_vaddr user_load_base)) [
      | inl e ↦ rw (ne, e) h
      | inr low ↦
          let ph = phdr_at d i in
          let r = load_pages m ((seg_end ph - seg_start ph) / page_size) (seg_start ph) ph s in
          let h' : InUser r.1.pages =
            load_pages-InUser ((seg_end ph - seg_start ph) / page_size) (seg_start ph) ph s
              (ground arith) (omega arith) h in
          rw (ne, low)
            (elim (Bool-cases r.0) [
              | inl ok ↦ rw ok (load_from-InUser n (i + 1) d _ r.1 h')
              | inr bad ↦ rw bad h'
            ])
    ]
  ]

  -- Whatever the file holds, the pages that `elf_load` maps are whole pages at or above the user
  -- base, none of them NULL; and a file whose header `elf_validate` refuses maps none and gives an
  -- invalid result.
  pub elf_load-InUser :
      (d : Mem) (size : ℕ) (s : Loaded m)
      → InUser s.pages
      → InUser (elf_load m d size s).1.pages
        × (elf_validate d size ≡ false
            → ((elf_load m d size s).0.valid ≡ false) × ((elf_load m d size s).1 ≡ s))
  unfolding elf_load
  elf_load-InUser d size s h = elim (Bool-cases (elf_validate d size)) [
    | inl e ↦ rw e (load_from-InUser _ 0 d 0 s h, λ b. cc)
    | inr e ↦ rw e (h, λ b. (refl, refl))
  ]
