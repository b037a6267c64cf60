-- ===== src/Mm/Slab/Page.antt =====
-- mm/slab.c: what a slab's page and a cache's lists of slabs look like between two calls, and which
-- objects are in use.
use sinux.Prelude.{
  ℕ, ◌+◌, ◌*◌, ◌%◌, ◌≤◌, ◌<◌, ◌≡◌, ap, ◌≢◌, ◌⊎◌, inl, inr, Bool, true, false, ◌&&◌, List,
  if◌then◌else◌, ltb, ◌==◌, arith, dec_lt, Bool-cases,
}
use sinux.Mm.Pages.{Pages, PagesLaws}
use sinux.Mm.Phys.{page_down}
use sinux.Mm.Slab.{
  Header, Cache, Slabs, slab_magic, header_size, bitmap_test, capacity, slab_get_obj, next_of,
  used_header, freed_header,
}
use sinux.Mm.Slab.Bits.{
  count_clear, capacity_bounds, count_clear-set, count_clear-clear, count_clear-le,
}
use sinux.Mm.Slab.Chain.{Chain, Chain-frame, count, Relinked}

-- The header of a slab of objects of a size; the count of free objects is exact.
pub record IsSlab (size : ℕ) (h : Header) : Type 0 where
  pub magic : h.magic ≡ slab_magic
  pub obj_size : h.obj_size ≡ size
  pub total : h.total_objs ≡ capacity size
  pub free : h.free_objs ≡ count_clear (capacity size) h.free_bitmap

-- The address of object i of the slab q.
abbrev pub object : ℕ → ℕ → ℕ → ℕ
object size q i = q + header_size + i * size

-- A size of objects of which a page holds one at least.
pub record IsSize (size : ℕ) : Type 0 where
  pub positive : 0 < size
  pub small : size ≤ 4040

pub index-fits : (size i : ℕ) → IsSize size → i < capacity size → i * size + size ≤ 4040
index-fits size i v l = grind (arith, capacity_bounds size v.positive v.small)

pub slab_get_obj_lem :
    (size q i : ℕ) (h : Header)
    → IsSize size
    → IsSlab size h
    → i < capacity size
    → slab_get_obj h q i ≡ object size q i
unfolding slab_get_obj
slab_get_obj_lem size q i h v s l = rw s.obj_size (omega (arith, index-fits size i v l))

-- The address of an object leads back to its slab and its number.
pub object-page_down :
    (size q i : ℕ)
    → IsSize size
    → q % 4096 ≡ 0
    → i < capacity size
    → page_down (object size q i) ≡ q
object-page_down size q i v a l = omega (arith, index-fits size i v l)

pub used_header-IsSlab :
    (size idx : ℕ) (h : Header)
    → IsSize size
    → IsSlab size h
    → idx < capacity size
    → bitmap_test h.free_bitmap idx ≡ false
    → IsSlab size (used_header h idx) × ((used_header h idx).free_objs + 1 ≡ h.free_objs)
used_header-IsSlab size idx h z s l f =
    let count = count_clear-set (capacity size) idx h.free_bitmap l f in
    let le = count_clear-le (capacity size) h.free_bitmap in
    let small = (capacity_bounds size z.positive z.small).1 in
    let left : (used_header h idx).free_objs + 1 ≡ h.free_objs = omega (arith, s.free) in
    (
      record {
        magic = s.magic;
        obj_size = s.obj_size;
        total = s.total;
        free = omega (arith, s.free, left);
      },
      left,
    )

pub freed_header-IsSlab :
    (size idx : ℕ) (h : Header)
    → IsSize size
    → IsSlab size h
    → idx < capacity size
    → bitmap_test h.free_bitmap idx ≡ true
    → IsSlab size (freed_header h idx) × ((freed_header h idx).free_objs ≡ h.free_objs + 1)
freed_header-IsSlab size idx h z s l t =
    let count = count_clear-clear (capacity size) idx h.free_bitmap l t in
    let le = count_clear-le (capacity size) h.free_bitmap in
    let small = (capacity_bounds size z.positive z.small).1 in
    let left : (freed_header h idx).free_objs ≡ h.free_objs + 1 = omega (arith, s.free) in
    (
      record {
        magic = s.magic;
        obj_size = s.obj_size;
        total = s.total;
        free = omega (arith, s.free, left);
      },
      left,
    )

-- The links are no part of it.
pub IsSlab-next : (size v : ℕ) (h : Header) → IsSlab size h → IsSlab size (record h { next = v })
IsSlab-next size v h s = record {
  magic = s.magic;
  obj_size = s.obj_size;
  total = s.total;
  free = s.free;
}

step-le : (size i j : ℕ) → i < j → i * size + size ≤ j * size
step-le size i j l = grind arith

page-le : (q r : ℕ) → q % 4096 ≡ 0 → r % 4096 ≡ 0 → q < r → q + 4096 ≤ r
page-le q r a b l = omega arith

-- Objects of two pages, of any sizes, do not overlap.
pub page_apart :
    (m n q i r j : ℕ)
    → IsSize m
    → IsSize n
    → q % 4096 ≡ 0
    → r % 4096 ≡ 0
    → i < capacity m
    → j < capacity n
    → q ≢ r
    → (object m q i + m ≤ object n r j) ⊎ (object n r j + n ≤ object m q i)
page_apart m n q i r j v w a b l k ne = elim (dec_lt q r) [
  | yes h ↦ inl (omega (arith, page-le q r a b h, index-fits m i v l))
  | no h ↦ inr (omega (arith, page-le r q b a (omega arith), index-fits n j w k))
]

-- Two objects do not overlap.
pub object_apart :
    (size q i r j : ℕ)
    → IsSize size
    → q % 4096 ≡ 0
    → r % 4096 ≡ 0
    → i < capacity size
    → j < capacity size
    → (q == r && i == j) ≡ false
    → (object size q i + size ≤ object size r j) ⊎ (object size r j + size ≤ object size q i)
object_apart size q i r j v a b l m ne = elim (dec_lt q r) [
  | yes h ↦ inl (omega (arith, page-le q r a b h, index-fits size i v l))
  | no h ↦ elim (dec_lt r q) [
    | yes k ↦ inr (omega (arith, page-le r q b a k, index-fits size j v m))
    | no k ↦ elim (dec_lt i j) [
      | yes before ↦ inl (omega (arith, step-le size i j before))
      | no other ↦ let behind : j < i = ground arith in inr (omega (arith, step-le size j i behind))
    ]
  ]
]

module _ (pages : Pages) (laws : PagesLaws pages) where
  -- What holds for each slab of a cache.
  pub record Member (size : ℕ) (s : Slabs pages) (q : ℕ) : Type 0 where
    pub header : IsSlab size (s.headers q)
    pub owned : laws.Owned s.free_pages q
    pub aligned : q % 4096 ≡ 0

  -- A slab whose header alone was written is a slab, and so are the others.
  pub replaced-Member :
      (size slab q : ℕ) (s t : Slabs pages) (h : Header)
      → Member size s q
      → IsSlab size h
      → ((r : ℕ) → t.headers r ≡ (if slab == r then h else s.headers r))
      → t.free_pages ≡ s.free_pages
      → Member size t q
  replaced-Member size slab q s t h m new at kept = record {
    header = elim (Bool-cases (slab == q)) [
      | inl e ↦ rw (at q, e) new
      | inr e ↦ rw (at q, e) m.header
    ];
    owned = rw kept m.owned;
    aligned = m.aligned;
  }

  pub Relinked-Member :
      (size q : ℕ) (s t : Slabs pages) → Relinked pages s t → Member size s q → Member size t q
  Relinked-Member size q s t r m = record {
    header = rw (r.at q) (IsSlab-next size (next_of pages t q) (s.headers q) m.header);
    owned = rw r.kept m.owned;
    aligned = m.aligned;
  }

  -- ps are the slabs with room, fs those without.
  pub record IsValid (c : Cache) (s : Slabs pages) (ps fs : List ℕ) : Type 0 where
    pub sound : laws.Sound s.free_pages
    pub size : IsSize c.obj_size
    pub partial : Chain (next_of pages s) c.partial ps
    pub full : Chain (next_of pages s) c.full fs
    pub once : (q : ℕ) → count q ps + count q fs ≤ 1
    pub member : (q : ℕ) → 0 < count q ps + count q fs → Member c.obj_size s q
    pub has_room : (q : ℕ) → 0 < count q ps → 0 < (s.headers q).free_objs
    pub no_room : (q : ℕ) → 0 < count q fs → (s.headers q).free_objs ≡ 0

  -- What is done to other pages leaves a cache valid.
  pub frame-IsValid :
      (c : Cache) (s t : Slabs pages) (ps fs : List ℕ)
      → IsValid c s ps fs
      → laws.Sound t.free_pages
      → ((q : ℕ) → 0 < count q ps + count q fs → t.headers q ≡ s.headers q)
      → ((q : ℕ) → 0 < count q ps + count q fs → laws.Owned t.free_pages q)
      → IsValid c t ps fs
  frame-IsValid c s t ps fs v sound same own =
      let link =
        λ (q : ℕ) (m : 0 < count q ps + count q fs). ap (λ (h : Header). h.next) (same q m) in
      record {
        sound = sound;
        size = v.size;
        partial =
            Chain-frame (next_of pages s) (next_of pages t) c.partial ps v.partial
              (λ q m. link q (omega (arith, m)));
        full =
            Chain-frame (next_of pages s) (next_of pages t) c.full fs v.full
              (λ q m. link q (omega (arith, m)));
        once = v.once;
        member = λ q m.
            let old = v.member q m in
            record { header = rw (same q m) old.header; owned = own q m; aligned = old.aligned };
        has_room = λ q m. rw (same q (omega (arith, m))) (v.has_room q m);
        no_room = λ q m. rw (same q (omega (arith, m))) (v.no_room q m);
      }

  -- Whether object i of the slab q is given out.
  abbrev pub live : Cache → Slabs pages → List ℕ → List ℕ → ℕ → ℕ → Bool
  live c s ps fs q i =
      ltb 0 (count q ps + count q fs)
      && (ltb i (capacity c.obj_size) && bitmap_test (s.headers q).free_bitmap i)
