-- ===== src/Mm/Pmm/Reserve.antt =====
-- What `pmm_init` of mm/pmm.c leaves free: pages of usable memory above the kernel and the bitmap.
use sinux.Prelude.{ℕ, ◌+◌, ◌*◌, ◌≤◌, ◌<◌, ◌≡◌, sym as sym', ◌⊎◌, List, [], ◌∷◌}
use sinux.Mm.Phys.{page_size}
use sinux.Mm.Pmm.{Pmm}
use sinux.Mm.Pmm.Alloc.{Bytes}
use sinux.Mm.Pmm.Boot.{Entry}
use sinux.Mm.Pmm.Apart.{Apart}
use sinux.Mm.Pmm.Init.{start_page, stop_page, kernel_end}

-- Page j lies wholly in a usable region of the list.
abbrev pub Covered : List Entry → ℕ → Type 0
Covered [] j = ⊥
Covered (e ∷ l) j = ((e.kind ≡ 1) × (start_page e ≤ j) × (j < stop_page e)) ⊎ Covered l j

-- Two states of the allocator between which the bitmap alone has changed.
record Same (p q : Pmm) : Type 0 where
  bytes : Bytes q
  total : q.total_pages ≡ p.total_pages
  place : q.bitmap ≡ p.bitmap
  size : q.bitmap_size ≡ p.bitmap_size

-- What `pmm_init` promises of a page that it leaves free.
pub record MayHandOut (kernel_end : ℕ) (l : List Entry) (q : Pmm) (j : ℕ) : Type 0 where
  pub above_kernel : kernel_end ≤ j * page_size
  pub above_bitmap : q.bitmap + q.bitmap_size ≤ j * page_size
  pub usable : Covered l j
