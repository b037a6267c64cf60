-- ===== src/Mm/Pmm/Init.antt =====
-- `pmm_init` of mm/pmm.c. The kernel's end, `_kernel_end`, is the linker's: a parameter. The first two
-- walks write no memory. The third clears bits of the bitmap between its reads, and reads the tags and
-- regions as they are then.
use mathlib.Core.Option
use sinux.Prelude.{
  ℕ, zero, suc, ◌+◌, ◌-◌, ◌*◌, ◌/◌, Option, none, some, List, [], ◌∷◌, if◌then◌else◌, ltb, leb, not,
  ◌&&◌, ◌==◌, min,
}
use sinux.Mm.Phys.{page_size, u64, page_up, page_down, fill, read32}
use sinux.Mm.Pmm.{Pmm, bm_test, take_page, give_page}
use sinux.Mm.Pmm.Boot.{Entry, mmap_entries, read_entry, tag_end, tag_mmap, tag_step}

abbrev pub mb2_magic : ℕ
mb2_magic = 0x36d76289

abbrev pub bitmap_max_pages : ℕ
bitmap_max_pages = 16 * 1024 * 1024

-- The first walk: the highest end of usable memory.
unfoldable pub max_addr : ℕ → List Entry → ℕ
max_addr acc [] = acc
max_addr acc (e ∷ l) =
    let top = u64 (e.base + e.len) in max_addr (if e.kind == 1 && ltb acc top then top else acc) l

-- The second walk: the first usable region with room for the bitmap above the kernel.
abbrev pub place_in : ℕ → Entry → ℕ
place_in kernel_end e = page_up (if ltb e.base kernel_end then kernel_end else e.base)

unfoldable pub place_bitmap : ℕ → ℕ → List Entry → ℕ
place_bitmap kernel_end size [] = 0
place_bitmap kernel_end size (e ∷ l) =
    let place = place_in kernel_end e in
    if e.kind == 1 && leb (u64 (place + size)) (u64 (e.base + e.len))
    then place
    else place_bitmap kernel_end size l

-- The third walk: pages of usable memory are marked free, from page idx on for n rounds.
unfoldable pub clear_page : Pmm → ℕ → Pmm
clear_page p idx = if ltb idx p.total_pages then give_page p idx else p

unfoldable pub clear_pages : ℕ → ℕ → Pmm → Pmm
unfolding clear_page
clear_pages zero idx p = p
clear_pages (suc n) idx p = clear_pages n (idx + 1) (clear_page p idx)

abbrev pub start_page : Entry → ℕ
start_page e = page_up e.base / page_size

abbrev pub stop_page : Entry → ℕ
stop_page e = page_down (u64 (e.base + e.len)) / page_size

unfoldable pub free_region : Entry → Pmm → Pmm
free_region e p =
    if e.kind == 1 then clear_pages (stop_page e - start_page e) (start_page e) p else p

-- The entries of the tag at ptr, from ep on.
unfoldable pub free_entries : ℕ → ℕ → ℕ → ℕ → Pmm → Option Pmm
unfolding free_region
free_entries zero ptr ep ee p = none
free_entries (suc f) ptr ep ee p =
    let q = free_region (read_entry p.mem ep) p in
    let rest = free_entries f ptr (ep + read32 q.mem (ptr + 8)) ee q in
    if leb (ep + read32 p.mem (ptr + 8)) ee then rest else some p

abbrev pub go_on : Option Pmm → (Pmm → Option Pmm) → Option Pmm
go_on none loop = none
go_on (some p) loop = loop p

-- The tags from ptr on. `end` is computed before the first walk.
unfoldable pub free_tags : ℕ → ℕ → ℕ → Pmm → Option Pmm
unfolding free_entries
free_tags zero ptr end p = none
free_tags (suc f) ptr end p =
    let kind = read32 p.mem ptr in
    let here = free_entries f ptr (ptr + 16) (ptr + read32 p.mem (ptr + 4)) p in
    let next =
      go_on (if kind == tag_mmap then here else some p)
        (λ q. free_tags f (ptr + tag_step (read32 q.mem (ptr + 4))) end q) in
    if leb (ptr + 8) end then if kind == tag_end then some p else next else some p

-- The last loop: n pages from page idx on are marked used.
unfoldable pub reserve_page : Pmm → ℕ → Pmm
reserve_page p idx = if ltb idx p.total_pages && not (bm_test p idx) then take_page p idx else p

unfoldable pub reserve_pages : ℕ → ℕ → Pmm → Pmm
unfolding reserve_page
reserve_pages zero idx p = p
reserve_pages (suc n) idx p = reserve_pages n (idx + 1) (reserve_page p idx)

abbrev pub reserve_end : ℕ → ℕ → ℕ → ℕ
reserve_end kernel_end bitmap size =
    let bitmap_end = page_up (bitmap + size) in
    if ltb kernel_end bitmap_end then bitmap_end else kernel_end

-- `kmemset(bitmap, 0xFF, bitmap_size); free_pages = 0;`
unfoldable pub all_used : Pmm → Pmm
all_used p = record p { mem = fill p.mem p.bitmap 0xff p.bitmap_size; free_pages = 0 }

-- `kernel_end_sym` is the address `_kernel_end`.
module _ (kernel_end_sym : ℕ) where
  abbrev pub kernel_end : ℕ
  kernel_end = page_up kernel_end_sym

  -- What is known after the first two walks.
  unfoldable pub sized : Pmm → List Entry → Pmm
  unfolding max_addr place_bitmap
  sized p l =
      let total = min (max_addr 0 l / page_size) bitmap_max_pages in
      let size = (total + 7) / 8 in
      record {
        mem = p.mem;
        bitmap = place_bitmap kernel_end size l;
        total_pages = total;
        free_pages = p.free_pages;
        bitmap_size = size;
      }

  -- The last loop.
  abbrev pub reserve : Pmm → Pmm
  reserve p = reserve_pages ((reserve_end kernel_end p.bitmap p.bitmap_size + 4095) / page_size) 0 p

  -- After the first two walks, which came to the regions l.
  unfoldable pub prepare : ℕ → ℕ → Option (List Entry) → Pmm → Option Pmm
  unfolding sized all_used free_tags reserve_pages
  prepare f info none p = none
  prepare f info (some l) p =
      let q = sized p l in
      let end = info + read32 p.mem info in
      if q.bitmap == 0 then some q else Option.map reserve (free_tags f (info + 8) end (all_used q))

  unfoldable pub pmm_init : ℕ → ℕ → ℕ → Pmm → Option Pmm
  unfolding prepare
  pmm_init f magic info p =
      if magic == mb2_magic then prepare f info (mmap_entries f p.mem info) p else some p
