-- ===== src/Mm/Pmm/Apart.antt =====
-- Memory outside the bitmap of mm/pmm.c, while bits of the bitmap are cleared.
use sinux.Prelude.{
  ℕ, zero, suc, ◌+◌, ◌-◌, ◌*◌, ◌/◌, ◌^◌, ◌≤◌, ◌<◌, ◌≡◌, refl, ap, ◌∙◌, ◌⊎◌, inl, inr, false, List,
  [], ◌∷◌, ltb, ◌==◌, Bool-cases, arith,
}
use sinux.Mm.Phys.{Mem, read32, read64}
use sinux.Mm.Pmm.{Pmm, give_page, bm_clear}
use sinux.Mm.Pmm.Boot.{Entry, read_entry, tag_end, tag_mmap, tag_step}
use sinux.Mm.Pmm.Init.{clear_page, clear_pages, free_region, start_page, stop_page}

-- The regions, one after the other.
unfoldable pub free_regions : List Entry → Pmm → Pmm
free_regions [] p = p
free_regions (e ∷ l) p = free_regions l (free_region e p)

-- Address a is not in the n bytes at b.
abbrev pub Outside : ℕ → ℕ → ℕ → Type 0
Outside b n a = (a < b) ⊎ (b + n ≤ a)

-- The bitmap is the n bytes at b, and outside of it memory is still m.
pub record Apart (b n : ℕ) (m : Mem) (p : Pmm) : Type 0 where
  pub place : p.bitmap ≡ b
  pub size : p.bitmap_size ≡ n
  pub fits : p.total_pages ≤ 8 * n
  pub same : (a : ℕ) → Outside b n a → p.mem a ≡ m a

clear_page-Apart : (b n i : ℕ) (m : Mem) (p : Pmm) → Apart b n m p → Apart b n m (clear_page p i)
unfolding clear_page give_page bm_clear
clear_page-Apart b n i m p h = elim (Bool-cases (ltb i p.total_pages)) [
  | inl t ↦
      let fits = h.fits in
      let place = h.place in
      rw t (record {
        place = h.place;
        size = h.size;
        fits = h.fits;
        same = λ a out.
            let other : ((p.bitmap + i / 8) == a) ≡ false = ground (arith, out) in
            rw other (h.same a out);
      })
  | inr f ↦ rw f h
]

clear_pages-Apart :
    (k b n i : ℕ) (m : Mem) (p : Pmm) → Apart b n m p → Apart b n m (clear_pages k i p)
unfolding clear_pages
clear_pages-Apart zero b n i m p h = h
clear_pages-Apart (suc k) b n i m p h =
    clear_pages-Apart k b n (i + 1) m (clear_page p i) (clear_page-Apart b n i m p h)

pub free_region-Apart :
    (b n : ℕ) (e : Entry) (m : Mem) (p : Pmm) → Apart b n m p → Apart b n m (free_region e p)
unfolding free_region
free_region-Apart b n e m p h = elim (Bool-cases (e.kind == 1)) [
  | inl t ↦ rw t (clear_pages-Apart (stop_page e - start_page e) b n (start_page e) m p h)
  | inr f ↦ rw f h
]

pub free_regions-Apart :
    (b n : ℕ) (l : List Entry) (m : Mem) (p : Pmm) → Apart b n m p → Apart b n m (free_regions l p)
unfolding free_regions
free_regions-Apart b n [] m p h = h
free_regions-Apart b n (e ∷ l) m p h =
    free_regions-Apart b n l m (free_region e p) (free_region-Apart b n e m p h)

-- The k bytes from a on are outside.
abbrev pub Clear : ℕ → ℕ → ℕ → ℕ → Type 0
Clear b n k a = (j : ℕ) → j < k → Outside b n (a + j)

pub read32-Apart :
    (b n a : ℕ) (m : Mem) (p : Pmm) → Apart b n m p → Clear b n 4 a → read32 p.mem a ≡ read32 m a
read32-Apart b n a m p h c =
    let zero_at : a + 0 ≡ a = omega arith in
    let first = h.same a (rw zero_at at (c 0 (omega arith))) in
    rw
      (
        first,
        h.same (a + 1) (c 1 (omega arith)),
        h.same (a + 2) (c 2 (omega arith)),
        h.same (a + 3) (c 3 (omega arith)),
      )
      refl

pub Clear-part : (b n k a i l : ℕ) → Clear b n k a → i + l ≤ k → Clear b n l (a + i)
Clear-part b n k a i l c h j lt =
    let e : a + (i + j) ≡ a + i + j = omega arith in rw e at (c (i + j) (omega arith))

read64-Apart :
    (b n a : ℕ) (m : Mem) (p : Pmm) → Apart b n m p → Clear b n 8 a → read64 p.mem a ≡ read64 m a
read64-Apart b n a m p h c =
    let low = read32-Apart b n a m p h (λ j l. c j (omega arith)) in
    let high = read32-Apart b n (a + 4) m p h (Clear-part b n 8 a 4 4 c (omega arith)) in
    ap (λ x. x + 2 ^ 32 * read32 p.mem (a + 4)) low ∙ ap (λ x. read32 m a + 2 ^ 32 * x) high

pub read_entry-Apart :
    (b n ep : ℕ) (m : Mem) (p : Pmm)
    → Apart b n m p
    → Clear b n 20 ep
    → read_entry p.mem ep ≡ read_entry m ep
read_entry-Apart b n ep m p h c =
    let base = read64-Apart b n ep m p h (λ j l. c j (omega arith)) in
    let len = read64-Apart b n (ep + 8) m p h (Clear-part b n 20 ep 8 8 c (omega arith)) in
    let kind = read32-Apart b n (ep + 16) m p h (Clear-part b n 20 ep 16 4 c (omega arith)) in
    ap (λ x. record { base = x; len = read64 p.mem (ep + 8); kind = read32 p.mem (ep + 16) }) base
    ∙ (ap (λ x. record { base = read64 m ep; len = x; kind = read32 p.mem (ep + 16) }) len
        ∙ ap (λ x. record { base = read64 m ep; len = read64 m (ep + 8); kind = x }) kind)

-- The entries that are read from ep on are not in the bitmap.
abbrev pub EntriesClear : ℕ → ℕ → ℕ → ℕ → ℕ → ℕ → Type 0
EntriesClear b n zero es ep ee = Unit {0}
EntriesClear b n (suc f) es ep ee =
    ep + es ≤ ee → Clear b n 20 ep × EntriesClear b n f es (ep + es) ee

-- Nor are the tags from ptr on, and the entries of those that hold regions.
abbrev pub TagsClear : ℕ → ℕ → ℕ → Mem → ℕ → ℕ → Type 0
TagsClear b n zero m ptr end = Unit {0}
TagsClear b n (suc f) m ptr end =
    ptr + 8 ≤ end
    → Clear b n 12 ptr
      × (read32 m ptr ≡ tag_mmap
          → EntriesClear b n f (read32 m (ptr + 8)) (ptr + 16) (ptr + read32 m (ptr + 4)))
      × ((read32 m ptr == tag_end) ≡ false
          → TagsClear b n f m (ptr + tag_step (read32 m (ptr + 4))) end)
