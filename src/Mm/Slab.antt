-- ===== src/Mm/Slab.antt =====
-- mm/slab.c: caches of objects of one size. A slab is a page with a header, and the objects behind it.
-- `headers` gives what the bytes at a page's address say as a header; a 64-bit word of the bitmap is
-- given by its bits. Addresses are numbers, 0 for NULL; a cache given is not NULL. The searches along a
-- list take fuel, and a result is `none` where a search has not ended. The allocator of pages is a
-- parameter.
pub mod Chain
pub mod Bits
pub mod Page
pub mod Grow
pub mod Take
pub mod Alloc
pub mod Return
pub mod Shrink
pub mod Free
pub mod Heap
use mathlib.Core.Option
use sinux.Prelude.{
  ℕ, zero, suc, ◌+◌, ◌-◌, ◌*◌, ◌/◌, ◌%◌, ◌^◌, Bool, true, false, not, ◌&&◌, ◌||◌, Option, none,
  some, List, if◌then◌else◌, ltb, leb, ◌==◌, update,
}
use sinux.Mm.Phys.{u64, page_down}
use sinux.Mm.Pages.{Pages}

abbrev pub slab_magic : ℕ
slab_magic = 0x5AB0BEEF

abbrev pub slab_max_objs : ℕ
slab_max_objs = 256

-- `sizeof(slab_header_t)`
abbrev pub header_size : ℕ
header_size = 56

abbrev pub u32 : ℕ → ℕ
u32 n = n % 2 ^ 32

abbrev pub Bitmap : Type 0
Bitmap = ℕ → ℕ → Bool

-- `slab_header_t`
pub record Header : Type 0 where
  pub magic : ℕ
  pub obj_size : ℕ
  pub total_objs : ℕ
  pub free_objs : ℕ
  pub free_bitmap : Bitmap
  pub next : ℕ

-- `slab_cache_t`
pub record Cache : Type 0 where
  pub name : List ℕ
  pub obj_size : ℕ
  pub align : ℕ
  pub partial : ℕ
  pub full : ℕ
  pub num_allocs : ℕ
  pub num_frees : ℕ
  pub num_slabs : ℕ

unfoldable pub bitmap_set : Bitmap → ℕ → Bitmap
bitmap_set bm idx w b = (w == idx / 64 && b == idx % 64) || bm w b

unfoldable pub bitmap_clear : Bitmap → ℕ → Bitmap
bitmap_clear bm idx w b = not (w == idx / 64 && b == idx % 64) && bm w b

unfoldable pub bitmap_test : Bitmap → ℕ → Bool
bitmap_test bm idx = bm (idx / 64) (idx % 64)

-- The rounds left, and i; `none` is -1.
unfoldable pub find_clear : ℕ → ℕ → Bitmap → Option ℕ
find_clear zero i bm = none
find_clear (suc n) i bm =
    let rest = find_clear n (i + 1) bm in if not (bitmap_test bm i) then some i else rest

unfoldable pub bitmap_find_free : Bitmap → ℕ → Option ℕ
unfolding find_clear
bitmap_find_free bm max = find_clear max 0 bm

-- An object marked in its slab's header, and one marked free.
abbrev pub used_header : Header → ℕ → Header
used_header h idx = record h {
  free_bitmap = bitmap_set h.free_bitmap idx;
  free_objs = u32 (h.free_objs + 2 ^ 32 - 1);
}

abbrev pub freed_header : Header → ℕ → Header
freed_header h idx = record h {
  free_bitmap = bitmap_clear h.free_bitmap idx;
  free_objs = u32 (h.free_objs + 1);
}

-- How many objects the page holds.
unfoldable pub capacity : ℕ → ℕ
capacity obj_size =
    let n = (4096 - header_size) / obj_size in if ltb slab_max_objs n then slab_max_objs else n

-- The header that `slab_create` writes.
unfoldable pub new_header : ℕ → Header
unfolding capacity
new_header obj_size = record {
  magic = slab_magic;
  obj_size = u32 obj_size;
  total_objs = capacity obj_size;
  free_objs = capacity obj_size;
  free_bitmap = λ w b. false;
  next = 0;
}

-- `int * uint32_t`
unfoldable pub slab_get_obj : Header → ℕ → ℕ → ℕ
slab_get_obj h slab idx = slab + header_size + u32 (idx * h.obj_size)

-- `none` is -1. The size in a slab's header is not 0.
unfoldable pub slab_find_obj_idx : Header → ℕ → ℕ → Option ℕ
slab_find_obj_idx h slab ptr =
    let base = slab + header_size in
    if ltb ptr base
    then none
    else if not ((ptr - base) % h.obj_size == 0)
    then none
    else if leb h.total_objs ((ptr - base) / h.obj_size)
    then none
    else some ((ptr - base) / h.obj_size)

module _ (pages : Pages) where
  open pages use {State, alloc, free}

  pub record Slabs : Type 0 where
    pub headers : ℕ → Header
    pub free_pages : State

  abbrev pub put : ℕ → Header → Slabs → Slabs
  put slab h s = record s { headers = update s.headers slab h }

  abbrev pub next_of : Slabs → ℕ → ℕ
  next_of s slab = (s.headers slab).next

  abbrev pub set_next : ℕ → ℕ → Slabs → Slabs
  set_next slab to s = put slab (record (s.headers slab) { next = to }) s

  unfoldable pub slab_create : ℕ → Slabs → ℕ × Slabs
  unfolding new_header
  slab_create obj_size s =
      let (page, t) = alloc s.free_pages in
      let u = record s { free_pages = t } in
      if page == 0 then (0, u) else (page, put page (new_header obj_size) u)

  -- A new slab in front of the partial ones: the first two blocks of `slab_alloc`.
  unfoldable pub grow : Cache → Slabs → ℕ × Cache × Slabs
  grow c s =
      let (slab, t) = slab_create c.obj_size s in
      if slab == 0 then (0, c, t) else (
        slab,
        record c { partial = slab; num_slabs = u64 (c.num_slabs + 1) },
        set_next slab c.partial t,
      )

  unfoldable pub first_slab : Cache → Slabs → ℕ × Cache × Slabs
  first_slab c s = if c.partial == 0 then grow c s else (c.partial, c, s)

  -- `while (prev && prev->next != slab) prev = prev->next;`
  unfoldable pub find_prev : ℕ → ℕ → ℕ → Slabs → Option ℕ
  find_prev zero slab prev s = none
  find_prev (suc fuel) slab prev s =
      let rest = find_prev fuel slab (next_of s prev) s in
      if prev == 0 || next_of s prev == slab then some prev else rest

  -- `if (prev) prev->next = slab->next;`
  abbrev pub skip : ℕ → ℕ → Slabs → Slabs
  skip slab prev s = if prev == 0 then s else set_next prev (next_of s slab) s

  -- A slab leaves the list that starts at `head`: the new start.
  unfoldable pub unlink : ℕ → ℕ → ℕ → Slabs → Option (ℕ × Slabs)
  unlink fuel slab head s =
      let search = Option.map (λ prev. (head, skip slab prev s)) (find_prev fuel slab head s) in
      if head == slab then some (next_of s slab, s) else search

  abbrev pub mark_used : ℕ → ℕ → Slabs → Slabs
  mark_used slab idx s = put slab (used_header (s.headers slab) idx) s

  abbrev pub to_full : ℕ → ℕ → Cache → ℕ × Slabs → ℕ × Cache × Slabs
  to_full obj slab c (head, s) =
      (obj, record c { partial = head; full = slab }, set_next slab c.full s)

  -- The object is marked, and a slab with no object left goes to the full ones.
  unfoldable pub take_object : ℕ → ℕ → ℕ → Cache → Slabs → Option (ℕ × Cache × Slabs)
  take_object fuel slab idx c s =
      let t = mark_used slab idx s in
      let d = record c { num_allocs = u64 (c.num_allocs + 1) } in
      let obj = slab_get_obj (s.headers slab) slab idx in
      if (t.headers slab).free_objs == 0
      then Option.map (to_full obj slab d) (unlink fuel slab d.partial t)
      else some (obj, d, t)

  unfoldable pub alloc_at : Option ℕ → ℕ → ℕ → Cache → Slabs → Option (ℕ × Cache × Slabs)
  unfolding take_object
  alloc_at (some idx) fuel slab c s = take_object fuel slab idx c s
  alloc_at none fuel slab c s =
      let (slab', d, t) = grow c s in
      if slab' == 0 then some (0, d, t) else take_object fuel slab' 0 d t

  -- `slab_alloc` with its first slab, 0 for NULL.
  unfoldable pub alloc_in : ℕ → ℕ × Cache × Slabs → Option (ℕ × Cache × Slabs)
  unfolding alloc_at
  alloc_in fuel (slab, c, s) =
      let h = s.headers slab in
      if slab == 0
      then some (0, c, s)
      else alloc_at (bitmap_find_free h.free_bitmap h.total_objs) fuel slab c s

  unfoldable pub slab_alloc : ℕ → Cache → Slabs → Option (ℕ × Cache × Slabs)
  unfolding first_slab alloc_in
  slab_alloc fuel c s = alloc_in fuel (first_slab c s)

  abbrev pub mark_free : ℕ → ℕ → Slabs → Slabs
  mark_free slab idx s = put slab (freed_header (s.headers slab) idx) s

  abbrev pub to_partial : ℕ → Cache → ℕ × Slabs → Cache × Slabs
  to_partial slab c (head, s) =
      (record c { full = head; partial = slab }, set_next slab c.partial s)

  -- `if (was_full) …`
  unfoldable pub leave_full : Bool → ℕ → ℕ → Cache → Slabs → Option (Cache × Slabs)
  leave_full false fuel slab c s = some (c, s)
  leave_full true fuel slab c s = Option.map (to_partial slab c) (unlink fuel slab c.full s)

  abbrev pub drop_slab : ℕ → Cache → ℕ × Slabs → Cache × Slabs
  drop_slab slab c (head, s) = (
    record c { partial = head; num_slabs = u64 (c.num_slabs + 2 ^ 64 - 1) },
    record s { free_pages = free s.free_pages slab },
  )

  -- A slab with no object in use is given back if the cache has more than two.
  unfoldable pub give_back : ℕ → ℕ → Cache × Slabs → Option (Cache × Slabs)
  give_back fuel slab (c, s) =
      let h = s.headers slab in
      if h.free_objs == h.total_objs && ltb 2 c.num_slabs
      then Option.map (drop_slab slab c) (unlink fuel slab c.partial s)
      else some (c, s)

  abbrev pub then_give : ℕ → ℕ → Option (Cache × Slabs) → Option (Cache × Slabs)
  then_give fuel slab none = none
  then_give fuel slab (some r) = give_back fuel slab r

  unfoldable pub free_object : ℕ → ℕ → ℕ → Cache → Slabs → Option (Cache × Slabs)
  unfolding leave_full give_back
  free_object fuel slab idx c s =
      let d = record c { num_frees = u64 (c.num_frees + 1) } in
      let was_full = (s.headers slab).free_objs == 0 in
      then_give fuel slab (leave_full was_full fuel slab d (mark_free slab idx s))

  unfoldable pub free_at : Option ℕ → ℕ → ℕ → Cache → Slabs → Option (Cache × Slabs)
  unfolding free_object
  free_at none fuel slab c s = some (c, s)
  free_at (some idx) fuel slab c s =
      if not (bitmap_test (s.headers slab).free_bitmap idx)
      then some (c, s)
      else free_object fuel slab idx c s

  unfoldable pub slab_free : ℕ → Cache → ℕ → Slabs → Option (Cache × Slabs)
  unfolding free_at
  slab_free fuel c ptr s =
      let slab = page_down ptr in
      let h = s.headers slab in
      if ptr == 0 || not (h.magic == slab_magic)
      then some (c, s)
      else free_at (slab_find_obj_idx h slab ptr) fuel slab c s
