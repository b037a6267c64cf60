-- ===== src/Mm/Pmm.antt =====
-- mm/pmm.c: the physical page allocator, a bitmap with one bit for each page, in physical memory
-- itself. A set bit is a page in use. Addresses do not wrap in `idx / 8`, so a bitmap index is
-- added to the bitmap's address as a plain number.
pub mod Alloc
pub mod Free
pub mod Boot
pub mod Init
pub mod Apart
pub mod Walk
pub mod Reserve
pub mod Instance
use sinux.Prelude.{
  ℕ, zero, suc, ◌+◌, ◌-◌, ◌*◌, ◌/◌, ◌%◌, ◌^◌, Bool, true, false, not, ◌&&◌, if◌then◌else◌, ltb,
}
use sinux.Mm.Phys.{Mem, page_size, u64, poke, bit_test, bit_set, bit_clear}

-- The file's static variables, and the memory that they point into.
pub record Pmm : Type 0 where
  pub mem : Mem
  pub bitmap : ℕ  -- its address, 0 for NULL
  pub total_pages : ℕ
  pub free_pages : ℕ
  pub bitmap_size : ℕ

unfoldable pub bm_set : Pmm → ℕ → Pmm
bm_set p idx =
    let a = p.bitmap + idx / 8 in record p { mem = poke p.mem a (bit_set (p.mem a) (idx % 8)) }

unfoldable pub bm_clear : Pmm → ℕ → Pmm
bm_clear p idx =
    let a = p.bitmap + idx / 8 in record p { mem = poke p.mem a (bit_clear (p.mem a) (idx % 8)) }

unfoldable pub bm_test : Pmm → ℕ → Bool
bm_test p idx = bit_test (p.mem (p.bitmap + idx / 8)) (idx % 8)

-- A free page is marked used, and counted: in `pmm_alloc`, and in the last loop of `pmm_init`.
unfoldable pub take_page : Pmm → ℕ → Pmm
take_page p i = record (bm_set p i) { free_pages = u64 (p.free_pages + 2 ^ 64 - 1) }

-- The loop of `pmm_alloc`: the rounds left, and i.
alloc_from : ℕ → ℕ → Pmm → ℕ × Pmm
unfolding take_page
alloc_from zero i p = (0, p)
alloc_from (suc n) i p =
    let rest = alloc_from n (i + 1) p in
    if not (bm_test p i) then (i * page_size, take_page p i) else rest

-- The address is 0 for NULL.
unfoldable pub pmm_alloc : Pmm → ℕ × Pmm
unfolding alloc_from
pmm_alloc p = alloc_from p.total_pages 0 p

-- A page is marked free, and counted: in `pmm_free`, and in the third walk of `pmm_init`.
unfoldable pub give_page : Pmm → ℕ → Pmm
give_page p i = record (bm_clear p i) { free_pages = u64 (p.free_pages + 1) }

unfoldable pub pmm_free : Pmm → ℕ → Pmm
pmm_free p page =
    let idx = page / page_size in
    if ltb idx p.total_pages && bm_test p idx then give_page p idx else p

unfoldable pub pmm_free_pages : Pmm → ℕ
pmm_free_pages p = p.free_pages

unfoldable pub pmm_total_pages : Pmm → ℕ
pmm_total_pages p = p.total_pages
