-- ===== src/Mm/Slab/Heap.antt =====
-- mm/slab.c: the heap over the eight caches of sizes, whole pages for what is larger, and the caches
-- that are created, each at its address. A fuel is what each search along a list has, and `none` says
-- that one has not ended.
pub mod Classes
pub mod Objects
pub mod Give
pub mod TakeBack
use mathlib.Core.Option
use sinux.Prelude.{
  ℕ, zero, suc, ◌+◌, ◌-◌, ◌*◌, ◌/◌, ◌^◌, not, ◌||◌, Option, none, some, List, [], bit_and,
  if◌then◌else◌, ltb, leb, ◌==◌, update, get_or, ◌∷◌,
}
use sinux.Mm.Phys.{u64, page_down}
use sinux.Mm.Pages.{Pages}
use sinux.Mm.Slab.{Cache, Slabs, next_of, slab_magic, slab_alloc, slab_free}

abbrev pub max_caches : ℕ
max_caches = 32

-- `sizeof(slab_cache_t)`
abbrev pub cache_size : ℕ
cache_size = 64

-- `sizes` of `slab_init`
abbrev pub sizes : List ℕ
sizes = 16 ∷ (32 ∷ (64 ∷ (128 ∷ (256 ∷ (512 ∷ (1024 ∷ (2048 ∷ [])))))))

-- A cache after `kmemset`, with its name, sizes and no slabs.
abbrev pub empty_cache : List ℕ → ℕ → ℕ → Cache
empty_cache name obj_size align = record {
  name = name;
  obj_size = obj_size;
  align = align;
  partial = 0;
  full = 0;
  num_allocs = 0;
  num_frees = 0;
  num_slabs = 0;
}

-- `(size + align - 1) & ~(align - 1)`
unfoldable pub aligned : ℕ → ℕ → ℕ
aligned size align =
    bit_and (u64 (size + align + 2 ^ 64 - 1)) (2 ^ 64 - 1 - u64 (align + 2 ^ 64 - 1))

module _ (pages : Pages) where
  open pages use {State, alloc, free}

  -- The file's static variables; `cache_at` gives the caches that were created, by their addresses.
  pub record Heap : Type 0 where
    pub slabs : Slabs pages
    pub size_caches : ℕ → Cache
    pub cache_at : ℕ → Cache
    pub caches : ℕ → ℕ
    pub num_caches : ℕ

  abbrev pub with_pages : Heap → State → Heap
  with_pages h s = record h { slabs = record h.slabs { free_pages = s } }

  -- The names, which nothing reads, are left empty.
  unfoldable pub slab_init : Heap → Heap
  slab_init h = record h {
    size_caches = λ i. if ltb i 8 then empty_cache [] (get_or sizes i 0) 16 else h.size_caches i;
  }

  -- `pmm_free(ptr + j * PAGE_SIZE)` for n values of j from j on.
  unfoldable pub free_from : ℕ → ℕ → ℕ → State → State
  free_from zero j ptr s = s
  free_from (suc n) j ptr s = free_from n (j + 1) ptr (free s (ptr + j * 4096))

  -- The loop over the pages behind the first: the rounds left, and i. The pages need not follow each
  -- other.
  unfoldable pub more_pages : ℕ → ℕ → ℕ → State → ℕ × State
  unfolding free_from
  more_pages zero i ptr s = (ptr, s)
  more_pages (suc n) i ptr s =
      let (p, t) = alloc s in
      let rest = more_pages n (i + 1) ptr t in if p == 0 then (0, free_from i 0 ptr t) else rest

  unfoldable pub large_alloc : ℕ → State → ℕ × State
  unfolding more_pages
  large_alloc size s =
      let (ptr, t) = alloc s in
      let count = u64 (size + 4095) / 4096 in
      if ptr == 0 then (0, t) else more_pages (count - 1) 1 ptr t

  -- The first cache of a size that is enough: the rounds left, and i.
  unfoldable pub class_from : ℕ → ℕ → ℕ → Heap → Option ℕ
  class_from zero i size h = none
  class_from (suc n) i size h =
      let rest = class_from n (i + 1) size h in
      if leb size (h.size_caches i).obj_size then some i else rest

  abbrev pub put_size : ℕ → Heap → ℕ × Cache × Slabs pages → ℕ × Heap
  put_size i h (obj, c, s) = (obj, record h { slabs = s; size_caches = update h.size_caches i c })

  unfoldable pub alloc_class : Option ℕ → ℕ → Heap → Option (ℕ × Heap)
  alloc_class none fuel h = some (0, h)
  alloc_class (some i) fuel h =
      Option.map (put_size i h) (slab_alloc pages fuel (h.size_caches i) h.slabs)

  unfoldable pub kmalloc_slab : ℕ → ℕ → Heap → Option (ℕ × Heap)
  unfolding large_alloc class_from alloc_class
  kmalloc_slab fuel size h =
      let (ptr, s) = large_alloc size h.slabs.free_pages in
      if size == 0
      then some (0, h)
      else if ltb 2048 size
      then some (ptr, with_pages h s)
      else alloc_class (class_from 8 0 size h) fuel h

  -- The first cache of objects of a size, among those of sizes and those created.
  unfoldable pub size_match : ℕ → ℕ → ℕ → Heap → Option ℕ
  size_match zero i size h = none
  size_match (suc n) i size h =
      let rest = size_match n (i + 1) size h in
      if (h.size_caches i).obj_size == size then some i else rest

  unfoldable pub cache_match : ℕ → ℕ → ℕ → Heap → Option ℕ
  cache_match zero i size h = none
  cache_match (suc n) i size h =
      let rest = cache_match n (i + 1) size h in
      if (h.cache_at (h.caches i)).obj_size == size then some (h.caches i) else rest

  abbrev pub freed_size : ℕ → Heap → Cache × Slabs pages → Heap
  freed_size i h (c, s) = record h { slabs = s; size_caches = update h.size_caches i c }

  abbrev pub freed_at : ℕ → Heap → Cache × Slabs pages → Heap
  freed_at a h (c, s) = record h { slabs = s; cache_at = update h.cache_at a c }

  unfoldable pub free_created : Option ℕ → ℕ → ℕ → Heap → Option Heap
  free_created none fuel ptr h = some h
  free_created (some a) fuel ptr h =
      Option.map (freed_at a h) (slab_free pages fuel (h.cache_at a) ptr h.slabs)

  unfoldable pub free_in : Option ℕ → ℕ → ℕ → ℕ → Heap → Option Heap
  unfolding cache_match free_created
  free_in none fuel size ptr h = free_created (cache_match h.num_caches 0 size h) fuel ptr h
  free_in (some i) fuel size ptr h =
      Option.map (freed_size i h) (slab_free pages fuel (h.size_caches i) ptr h.slabs)

  unfoldable pub kfree_slab : ℕ → ℕ → Heap → Option Heap
  unfolding size_match free_in
  kfree_slab fuel ptr h =
      let slab = h.slabs.headers (page_down ptr) in
      if ptr == 0
      then some h
      else if not (slab.magic == slab_magic)
      then some (with_pages h (free h.slabs.free_pages ptr))
      else free_in (size_match 8 0 slab.obj_size h) fuel slab.obj_size ptr h

  abbrev pub add_cache : Cache → ℕ × Heap → ℕ × Heap
  add_cache c (a, h) = if a == 0 then (0, h) else (
    a,
    record h {
      cache_at = update h.cache_at a c;
      caches = update h.caches h.num_caches a;
      num_caches = h.num_caches + 1;
    },
  )

  -- The cache's address, 0 for NULL.
  unfoldable pub slab_cache_create : ℕ → List ℕ → ℕ → ℕ → Heap → Option (ℕ × Heap)
  unfolding aligned
  slab_cache_create fuel name size align h =
      let n = aligned size align in
      if leb max_caches h.num_caches || (size == 0 || ltb 2048 size)
      then some (0, h)
      else Option.map (add_cache (empty_cache name (if ltb n 16 then 16 else n) align))
          (kmalloc_slab fuel cache_size h)

  -- `while (slab) { next = slab->next; pmm_free(slab); slab = next; }`
  unfoldable pub free_list : ℕ → ℕ → Slabs pages → Option (Slabs pages)
  free_list zero slab s = none
  free_list (suc fuel) slab s =
      let rest =
        free_list fuel (next_of pages s slab) (record s { free_pages = free s.free_pages slab }) in
      if slab == 0 then some s else rest

  -- The last entry takes the place of the first that is the cache: the rounds left, and i.
  unfoldable pub forget_from : ℕ → ℕ → ℕ → Heap → Heap
  forget_from zero i a h = h
  forget_from (suc n) i a h =
      let rest = forget_from n (i + 1) a h in
      let last = h.num_caches - 1 in
      if h.caches i == a
      then record h { caches = update h.caches i (h.caches last); num_caches = last }
      else rest

  abbrev pub after_lists : ℕ → ℕ → Heap → Option (Slabs pages) → Option Heap
  after_lists fuel a h none = none
  after_lists fuel a h (some s) =
      kfree_slab fuel a (forget_from h.num_caches 0 a (record h { slabs = s }))

  unfoldable pub slab_cache_destroy : ℕ → ℕ → Heap → Option Heap
  unfolding free_list forget_from
  slab_cache_destroy fuel a h =
      let c = h.cache_at a in
      let lists : Option (Slabs pages) = elim (free_list fuel c.partial h.slabs) [
        | none ↦ none
        | some s ↦ free_list fuel c.full s
      ] in
      if a == 0 then some h else after_lists fuel a h lists
