-- ===== src/Mm/Slab/Alloc.antt =====
-- `slab_alloc` of mm/slab.c: what it gives out was not in use.
use sinux.Prelude.{
  ℕ, ◌+◌, ◌%◌, ◌<◌, ◌≡◌, refl, ap, ◌≢◌, ◌⊎◌, inl, inr, false, ◌&&◌, ◌||◌, some, List, [], ◌∷◌,
  ℕ_discrete, sym, ◌∙◌, ◌==◌, arith, Bool-cases, neq_false, ==_iff,
}
use sinux.Mm.Pages.{Pages, PagesLaws}
use sinux.Mm.Slab.{
  Cache, Slabs, capacity, slab_create, grow, first_slab, take_object, alloc_at, alloc_in,
  slab_alloc, bitmap_find_free,
}
use sinux.Mm.Slab.Bits.{count_clear, bitmap_find_free_lem}
use sinux.Mm.Slab.Chain.{count}
use sinux.Mm.Slab.Page.{IsValid, live, object}
use sinux.Mm.Slab.Grow.{slab, cache, state, grow_lem, grow-IsValid, grow-live}
use sinux.Mm.Slab.Take.{
  full-IsValid, room-IsValid, take_was_free, room-live, full-live, take_room, take_last, marked,
  counting, full_cache, full_state,
}

module _ (pages : Pages) (laws : PagesLaws pages) where
  -- Object idx of a slab has been given out, at the address obj, and no other has changed.
  pub record Allocated (c : Cache) (s : Slabs pages) (ps fs : List ℕ) (obj : ℕ) (d : Cache)
      (t : Slabs pages) : Type 0 where
    pub slab : ℕ
    pub idx : ℕ
    pub ps' : List ℕ
    pub fs' : List ℕ
    pub valid : IsValid pages laws d t ps' fs'
    pub size_kept : d.obj_size ≡ c.obj_size
    pub aligned : slab % 4096 ≡ 0
    pub inside : idx < capacity c.obj_size
    pub address : obj ≡ object c.obj_size slab idx
    pub kept : (q : ℕ) → laws.Owned s.free_pages q → laws.Owned t.free_pages q
    pub others :
        (q : ℕ)
        → count q ps + count q fs ≡ 0
        → count q ps' + count q fs' ≡ 0
        → t.headers q ≡ s.headers q
    pub held : (q : ℕ) → 0 < count q ps + count q fs → 0 < count q ps' + count q fs'
    pub new :
        (q : ℕ)
        → 0 < count q ps' + count q fs'
        → count q ps + count q fs ≡ 0
        → ¬ laws.Owned s.free_pages q
    pub was_free : live pages laws c s ps fs slab idx ≡ false
    pub lives :
        (q i : ℕ)
        → live pages laws d t ps' fs' q i
          ≡ ((slab == q && idx == i) || live pages laws c s ps fs q i)

  from_first :
      (fuel : ℕ) (c : Cache) (s : Slabs pages) (page : ℕ) (ps fs : List ℕ)
      → IsValid pages laws c s (page ∷ ps) fs
      → (obj : ℕ) × (d : Cache) × (t : Slabs pages) × (alloc_at pages
            (bitmap_find_free (s.headers page).free_bitmap (s.headers page).total_objs)
            fuel
            page
            c
            s
          ≡ some (obj, d, t))
        × Allocated c s (page ∷ ps) fs obj d t
  unfolding alloc_at
  from_first fuel c s page ps fs v =
      let m = v.member page (ground arith) in
      let free : 0 < count_clear (capacity c.obj_size) (s.headers page).free_bitmap =
        ground (arith, v.has_room page, m.header.free) in
      let (idx, found, inside, clear) =
        bitmap_find_free_lem (capacity c.obj_size) (s.headers page).free_bitmap free in
      let found_at : alloc_at pages
            (bitmap_find_free (s.headers page).free_bitmap (s.headers page).total_objs) fuel page c
            s
          ≡ take_object pages fuel page idx c s =
        ap (λ n. alloc_at pages (bitmap_find_free (s.headers page).free_bitmap n) fuel page c s)
          m.header.total
        ∙ ap (λ o. alloc_at pages o fuel page c s) found in
      elim (ℕ_discrete (s.headers page).free_objs 1) [
        | yes last ↦ (
          object c.obj_size page idx,
          full_cache pages laws c s page ps fs v idx inside clear,
          full_state pages laws c s page ps fs v idx inside clear,
          found_at ∙ (take_last pages laws c s page ps fs v idx inside clear fuel last),
          record {
            slab = page;
            idx = idx;
            ps' = ps;
            fs' = page ∷ fs;
            valid = full-IsValid pages laws c s page ps fs v idx inside clear last;
            size_kept = refl;
            aligned = m.aligned;
            inside = inside;
            address = refl;
            kept = λ q o. o;
            others = λ q a b. ground arith;
            held = λ q a. omega (arith, a);
            new = λ q a b. absurd (omega arith);
            was_free = take_was_free pages laws c s page ps fs v idx inside clear;
            lives = full-live pages laws c s page ps fs v idx inside clear;
          },
        )
        | no more ↦ (
          object c.obj_size page idx,
          counting pages laws c s page ps fs v idx inside clear,
          marked pages laws c s page ps fs v idx inside clear,
          found_at ∙ (take_room pages laws c s page ps fs v idx inside clear fuel more),
          record {
            slab = page;
            idx = idx;
            ps' = page ∷ ps;
            fs' = fs;
            valid = room-IsValid pages laws c s page ps fs v idx inside clear more;
            size_kept = refl;
            aligned = m.aligned;
            inside = inside;
            address = refl;
            kept = λ q o. o;
            others = λ q a b. ground arith;
            held = λ q a. omega (arith, a);
            new = λ q a b. absurd (omega arith);
            was_free = take_was_free pages laws c s page ps fs v idx inside clear;
            lives = room-live pages laws c s page ps fs v idx inside clear;
          },
        )
      ]

  first_partial :
      (c : Cache) (s : Slabs pages) (page : ℕ)
      → c.partial ≡ page
      → page ≢ 0
      → first_slab pages c s ≡ (page, c, s)
  unfolding first_slab
  first_partial c s page e ne = ground arith

  first_new : (c : Cache) (s : Slabs pages) → c.partial ≡ 0 → first_slab pages c s ≡ grow pages c s
  unfolding first_slab
  first_new c s e = ground arith

  -- The rest of `slab_alloc`, once it has a slab.
  rest_of :
      (fuel : ℕ) (c d : Cache) (s t : Slabs pages) (page : ℕ)
      → first_slab pages c s ≡ (page, d, t)
      → page ≢ 0
      → slab_alloc pages fuel c s
        ≡ alloc_at pages
            (bitmap_find_free (t.headers page).free_bitmap (t.headers page).total_objs)
            fuel
            page
            d
            t
  unfolding slab_alloc alloc_in
  rest_of fuel c d s t page e ne = rw (e, neq_false page 0 ne) refl

  grow_none :
      (c : Cache) (s : Slabs pages)
      → (pages.alloc s.free_pages).0 ≡ 0
      → grow pages c s ≡ (0, c, record s { free_pages = (pages.alloc s.free_pages).1 })
  unfolding grow slab_create
  grow_none c s e = ground arith

  no_slab :
      (fuel : ℕ) (c d : Cache) (s t : Slabs pages)
      → first_slab pages c s ≡ (0, d, t)
      → slab_alloc pages fuel c s ≡ some (0, d, t)
  unfolding slab_alloc alloc_in
  no_slab fuel c d s t e = rw e refl

  -- What `slab_alloc` gives: NULL, where the allocator of pages gave it one, or an object.
  abbrev pub Result : ℕ → Cache → Slabs pages → List ℕ → List ℕ → Type 0
  Result fuel c s ps fs =
      ((ps ≡ [])
        × ((pages.alloc s.free_pages).0 ≡ 0)
        × (slab_alloc pages fuel c s
            ≡ some (0, c, record s { free_pages = (pages.alloc s.free_pages).1 })))
      ⊎ ((obj : ℕ) × (d : Cache) × (t : Slabs pages) × (slab_alloc pages fuel c s
            ≡ some (obj, d, t))
          × Allocated c s ps fs obj d t)

  -- The same object, seen from the state before the slab was added.
  before_growing :
      (c : Cache) (s : Slabs pages) (fs : List ℕ) (v : IsValid pages laws c s [] fs)
      (page : (pages.alloc s.free_pages).0 ≢ 0) (obj : ℕ) (d : Cache) (t : Slabs pages)
      → Allocated
          (cache pages laws c s fs [] v page)
          (state pages laws c s fs [] v page)
          (slab pages laws c s fs [] v page ∷ [])
          fs
          obj
          d
          t
      → Allocated c s [] fs obj d t
  before_growing c s fs v page obj d t a = record {
    slab = a.slab;
    idx = a.idx;
    ps' = a.ps';
    fs' = a.fs';
    valid = a.valid;
    size_kept = a.size_kept;
    aligned = a.aligned;
    inside = a.inside;
    address = a.address;
    kept = λ q o. a.kept q (laws.alloc-keeps s.free_pages q v.sound o);
    held = λ q x. a.held q (omega (arith, x));
    others = λ q x y.
        let apart : ((pages.alloc s.free_pages).0 == q) ≡ false =
          ground (arith, a.held (pages.alloc s.free_pages).0) in
        a.others q (ground arith) y ∙ rw apart refl;
    new = λ q x y. elim (Bool-cases ((pages.alloc s.free_pages).0 == q)) [
      | inl e ↦
          let at : (pages.alloc s.free_pages).0 ≡ q = (==_iff _ q).0 e in
          rw (← at) (laws.alloc-new s.free_pages v.sound page).1
      | inr e ↦ λ o. a.new q x (ground arith) (laws.alloc-keeps s.free_pages q v.sound o)
    ];
    was_free = sym (grow-live pages laws c s fs [] v page a.slab a.idx) ∙ a.was_free;
    lives = λ q i.
        a.lives q i
        ∙ ap (λ b. (a.slab == q && a.idx == i) || b) (grow-live pages laws c s fs [] v page q i);
  }

  pub slab_alloc_lem :
      (fuel : ℕ) (c : Cache) (s : Slabs pages) (ps fs : List ℕ)
      → IsValid pages laws c s ps fs
      → Result fuel c s ps fs
  slab_alloc_lem fuel c s (page ∷ ps) fs v =
      let (obj, d, t, e, a) = from_first fuel c s page ps fs v in
      let (at, ne, chain) = v.partial in
      inr (obj, d, t, rest_of fuel c c s s page (first_partial c s page at ne) ne ∙ e, a)
  slab_alloc_lem fuel c s [] fs v = elim (ℕ_discrete (pages.alloc s.free_pages).0 0) [
    | yes none_left ↦
        inl (
          refl,
          none_left,
          no_slab fuel c c s _ (first_new c s v.partial ∙ grow_none c s none_left),
        )
    | no page ↦
        let (obj, d, t, e, a) =
          from_first fuel (cache pages laws c s fs [] v page) (state pages laws c s fs [] v page)
            (slab pages laws c s fs [] v page) [] fs (grow-IsValid pages laws c s fs [] v page) in
        inr (
          obj,
          d,
          t,
          rest_of fuel c _ s _ _ (first_new c s v.partial ∙ grow_lem pages laws c s fs [] v page)
                page
              ∙ e,
          before_growing c s fs v page obj d t a,
        )
  ]
