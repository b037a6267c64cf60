-- ===== src/Mm/Slab/Grow.antt =====
-- mm/slab.c: a new slab in front of the partial ones of a cache.
use sinux.Prelude.{
  ℕ, ◌+◌, ◌<◌, ◌≡◌, refl, ◌≢◌, inl, inr, List, ◌∷◌, dec_lt, ◌==◌, arith, Bool-cases, ==_iff,
}
use sinux.Mm.Pages.{Pages, PagesLaws}
use sinux.Mm.Phys.{u64}
use sinux.Mm.Slab.{Cache, Slabs, put, next_of, bitmap_test, capacity, new_header, slab_create, grow}
use sinux.Mm.Slab.Bits.{count_clear_none, capacity_bounds}
use sinux.Mm.Slab.Chain.{Chain-frame, Chain-cons, count}
use sinux.Mm.Slab.Page.{IsSlab, IsSize, Member, IsValid, live}

new_header-IsSlab : (size v : ℕ) → IsSize size → IsSlab size (record (new_header size) { next = v })
unfolding new_header
new_header-IsSlab size v z = record {
  magic = refl;
  obj_size = omega (arith, z.small);
  total = refl;
  free = ground (arith, count_clear_none (capacity size));
}

new_header-room : (size : ℕ) → IsSize size → 0 < (new_header size).free_objs
unfolding new_header
new_header-room size z = (capacity_bounds size z.positive z.small).0

module _ (pages : Pages) (laws : PagesLaws pages) where
  -- A new slab in front, all of whose objects are free.
  module _ (c : Cache) (s : Slabs pages) (fs : List ℕ) (ps : List ℕ)
      (v : IsValid pages laws c s ps fs) (page : (pages.alloc s.free_pages).0 ≢ 0) where
    abbrev pub slab : ℕ
    slab = (pages.alloc s.free_pages).0

    abbrev pub cache : Cache
    cache = record c { partial = slab; num_slabs = u64 (c.num_slabs + 1) }

    abbrev pub state : Slabs pages
    state =
        put pages slab (record (new_header c.obj_size) { next = c.partial })
          (record s { free_pages = (pages.alloc s.free_pages).1 })

    pub grow_lem : grow pages c s ≡ (slab, cache, state)
    unfolding grow slab_create
    grow_lem = ground (arith, page)

    absent : count slab ps + count slab fs ≡ 0
    absent = elim (dec_lt 0 (count slab ps + count slab fs)) [
      | yes h ↦ absurd ((laws.alloc-new s.free_pages v.sound page).1 (v.member slab h).owned)
      | no h ↦ omega arith
    ]

    same_links : (q : ℕ) → 0 < count q ps + count q fs → next_of pages state q ≡ next_of pages s q
    same_links q h = ground (arith, absent)

    grow-Member :
        (q : ℕ) → 0 < count q (slab ∷ ps) + count q fs → Member pages laws c.obj_size state q
    grow-Member q m = elim (Bool-cases (slab == q)) [
      | inl e ↦
          let at : slab ≡ q = (==_iff slab q).0 e in
          let (aligned, new, owned) = laws.alloc-new s.free_pages v.sound page in
          record {
            header = rw e (new_header-IsSlab c.obj_size c.partial v.size);
            owned = rw (← at) owned;
            aligned = rw (← at) aligned;
          }
      | inr e ↦
          let old = v.member q (ground (arith, e)) in
          record {
            header = rw e old.header;
            owned = laws.alloc-keeps s.free_pages q v.sound old.owned;
            aligned = old.aligned;
          }
    ]

    pub grow-IsValid : IsValid pages laws cache state (slab ∷ ps) fs
    grow-IsValid = record {
      sound = laws.alloc-Sound s.free_pages v.sound;
      size = v.size;
      partial = Chain-cons (next_of pages state) c.partial slab ps page (ground arith) (
          Chain-frame (next_of pages s) (next_of pages state) c.partial ps v.partial
            (λ q h. same_links q (omega arith)));
      full =
          Chain-frame (next_of pages s) (next_of pages state) c.full fs v.full
            (λ q h. same_links q (omega arith));
      once = λ q. ground (arith, v.once q, absent);
      member = grow-Member;
      has_room = λ q m. ground (arith, v.has_room q, new_header-room c.obj_size v.size);
      no_room = λ q m. ground (arith, v.no_room q, absent);
    }

    pub grow-live :
        (q i : ℕ) → live pages laws cache state (slab ∷ ps) fs q i ≡ live pages laws c s ps fs q i
    unfolding new_header bitmap_test
    grow-live q i = ground (arith, absent)
