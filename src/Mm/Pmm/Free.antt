-- ===== src/Mm/Pmm/Free.antt =====
-- `pmm_free` of mm/pmm.c, and how it undoes `pmm_alloc`.
use mathlib.Core.Path.{fun_ext}
use sinux.Prelude.{
  ℕ, ◌+◌, ◌-◌, ◌*◌, ◌/◌, ◌%◌, ◌^◌, ◌<◌, ◌≡◌, refl, ap, ◌≢◌, inl, inr, true, false, not, ◌&&◌,
  if◌then◌else◌, ltb, ◌==◌, Bool-cases, arith, ltb→lt, lt→ltb,
}
use sinux.Mm.Phys.{page_size, bit_clear-set}
use sinux.Mm.Pmm.{Pmm, bm_set, bm_clear, bm_test, take_page, give_page, pmm_alloc, pmm_free}
use sinux.Mm.Pmm.Alloc.{
  Bytes, IsValid, count_free, count_free-le, count_free-differ, bm_test-clear, bm_clear-Bytes,
  pmm_alloc_lem, count_free-pos, bm_test-take, total-take,
}

pub bm_test-give :
    (p : Pmm) (i j : ℕ) → Bytes p → bm_test (give_page p i) j ≡ (not (i == j) && bm_test p j)
unfolding give_page bm_test
bm_test-give p i j h = unfold bm_test in bm_test-clear p i j h

count_free-give :
    (p : Pmm) (i : ℕ)
    → Bytes p
    → i < p.total_pages
    → bm_test p i ≡ true
    → count_free p.total_pages p + 1 ≡ count_free p.total_pages (give_page p i)
count_free-give p i h l t = ground (
  arith,
  count_free-differ p.total_pages i (give_page p i) p (λ j ne. ground (arith, bm_test-give p i j h))
      (ground (arith, bm_test-give p i i h)) t,
)

give_page-IsValid :
    (p : Pmm) (i : ℕ)
    → IsValid p
    → i < p.total_pages
    → bm_test p i ≡ true
    → IsValid (give_page p i) × ((give_page p i).free_pages ≡ p.free_pages + 1)
unfolding give_page bm_clear
give_page-IsValid p i v l t =
    let c = count_free-give p i v.bytes l t in
    let le = count_free-le p.total_pages (give_page p i) in
    let le' = count_free-le p.total_pages p in
    let e = v.counted in
    (
      record {
        bytes = unfold bm_clear in bm_clear-Bytes p i v.bytes;
        counted = unfold give_page bm_clear in omega arith;
        small = v.small;
      },
      omega arith,
    )

-- `pmm_free` of a page in use frees that page and no other, and counts it; of a page that is free
-- already, or beyond the end of memory, it changes neither the bitmap nor the count. The allocator
-- stays valid.
pub pmm_free_lem :
    (p : Pmm) (page j : ℕ)
    → IsValid p
    → j < p.total_pages
    → let k = page / page_size in
      IsValid (pmm_free p page)
      × (bm_test (pmm_free p page) j ≡ (not (k == j) && bm_test p j))
      × ((pmm_free p page).free_pages
          ≡ (if ltb k p.total_pages && bm_test p k then p.free_pages + 1 else p.free_pages))
unfolding pmm_free
pmm_free_lem p page j v l = elim (Bool-cases (ltb (page / page_size) p.total_pages)) [
  | inl inside ↦ elim (Bool-cases (bm_test p (page / page_size))) [
    | inl used ↦
        let g = give_page-IsValid p (page / page_size) v (omega (arith, ltb→lt _ _ inside)) used in
        rw (inside, used) (g.0, bm_test-give p (page / page_size) j v.bytes, g.1)
    | inr free ↦ rw (inside, free) (v, ground arith, refl)
  ]
  | inr outside ↦ rw outside (v, ground arith, refl)
]

poke-poke :
    (p : Pmm) (i : ℕ) → Bytes p → bm_test p i ≡ false → (bm_clear (bm_set p i) i).mem ≡ p.mem
unfolding bm_test bm_clear bm_set
poke-poke p i h f =
    fun_ext
      λ a. ground (arith, bit_clear-set (p.mem (p.bitmap + i / 8)) (i % 8) (h (p.bitmap + i / 8)))

give_page-take :
    (p : Pmm) (k : ℕ)
    → IsValid p
    → k < p.total_pages
    → bm_test p k ≡ false
    → give_page (take_page p k) k ≡ p
unfolding give_page take_page bm_set bm_clear
give_page-take p k v l f = λ i. record {
  mem = same i;
  bitmap = p.bitmap;
  total_pages = p.total_pages;
  free_pages = count i;
  bitmap_size = p.bitmap_size;
}
  where
    same : (bm_clear (bm_set p k) k).mem ≡ p.mem
    same = poke-poke p k v.bytes f

    count : (((p.free_pages + 2 ^ 64 - 1) % 2 ^ 64) + 1) % 2 ^ 64 ≡ p.free_pages
    count = omega (
      arith,
      v.counted,
      v.small,
      count_free-le p.total_pages p,
      count_free-pos p.total_pages k p l f,
    )

pmm_free-take :
    (p : Pmm) (k : ℕ)
    → IsValid p
    → k < p.total_pages
    → bm_test p k ≡ false
    → pmm_free (take_page p k) (k * page_size) ≡ p
unfolding pmm_free
pmm_free-take p k v l f =
    let q : k * page_size / page_size ≡ k = omega arith in
    let inside : ltb k (take_page p k).total_pages ≡ true =
      lt→ltb _ _ (omega (arith, total-take p k)) in
    let used : bm_test (take_page p k) k ≡ true = ground (arith, bm_test-take p k k v.bytes) in
    rw (q, inside, used) (give_page-take p k v l f)

-- A page from `pmm_alloc`, given back by `pmm_free`, leaves the allocator, with the memory of its
-- bitmap, as it was.
pub pmm_free-alloc :
    (p : Pmm) → IsValid p → (pmm_alloc p).0 ≢ 0 → pmm_free (pmm_alloc p).1 (pmm_alloc p).0 ≡ p
pmm_free-alloc p v ne = elim (pmm_alloc_lem p v) [
  | inl (all, e) ↦ absurd (ne (ap (λ (r : ℕ × Pmm). r.0) e))
  | inr (k, a) ↦ rw (a.page, a.state) (pmm_free-take p k v a.inside a.was_free)
]

-- Two pages from `pmm_alloc`, one after the other, are not the same page.
pub pmm_alloc-distinct :
    (p : Pmm) → IsValid p → (pmm_alloc p).0 ≢ 0 → (pmm_alloc (pmm_alloc p).1).0 ≢ (pmm_alloc p).0
pmm_alloc-distinct p v ne same = elim (pmm_alloc_lem p v) [
  | inl (all, e) ↦ ne (ap (λ (r : ℕ × Pmm). r.0) e)
  | inr (k, a) ↦ elim (pmm_alloc_lem (pmm_alloc p).1 a.valid) [
    | inl (all, e) ↦ ne (ground arith)
    | inr (k', b) ↦ ground (arith, a.taken k', a.page, b.page, b.was_free)
  ]
]
