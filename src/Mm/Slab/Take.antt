-- ===== src/Mm/Slab/Take.antt =====
-- `slab_alloc` of mm/slab.c: an object of the first partial slab is marked, and the slab goes to the full
-- ones if that was its last.
use sinux.Prelude.{ℕ, ◌+◌, ◌<◌, ◌≡◌, refl, ◌≢◌, false, ◌&&◌, ◌||◌, some, List, ◌∷◌, ◌==◌, arith}
use sinux.Mm.Pages.{Pages, PagesLaws}
use sinux.Mm.Phys.{u64}
use sinux.Mm.Slab.{
  used_header, Cache, Slabs, set_next, next_of, bitmap_test, capacity, unlink, mark_used,
  take_object,
}
use sinux.Mm.Slab.Bits.{bitmap_test-set}
use sinux.Mm.Slab.Chain.{Chain-frame, Chain-cons, count}
use sinux.Mm.Slab.Page.{
  IsSlab, Member, IsValid, live, object, slab_get_obj_lem, IsSlab-next, used_header-IsSlab,
  replaced-Member,
}

module _ (pages : Pages) (laws : PagesLaws pages) where
  -- An object of the first partial slab is marked.
  module _ (c : Cache) (s : Slabs pages) (slab : ℕ) (ps fs : List ℕ)
      (v : IsValid pages laws c s (slab ∷ ps) fs) (idx : ℕ) (inside : idx < capacity c.obj_size)
      (clear : bitmap_test (s.headers slab).free_bitmap idx ≡ false) where
    abbrev pub marked : Slabs pages
    marked = mark_used pages slab idx s

    abbrev pub counting : Cache
    counting = record c { num_allocs = u64 (c.num_allocs + 1) }

    here : Member pages laws c.obj_size s slab
    here = v.member slab (ground arith)

    marking :
        IsSlab c.obj_size (used_header (s.headers slab) idx)
        × ((used_header (s.headers slab) idx).free_objs + 1 ≡ (s.headers slab).free_objs)
    marking = used_header-IsSlab c.obj_size idx (s.headers slab) v.size here.header inside clear

    abbrev pub full_cache : Cache
    full_cache = record counting { partial = next_of pages s slab; full = slab }

    abbrev pub full_state : Slabs pages
    full_state = set_next pages slab c.full marked

    absent_else : (count slab ps ≡ 0) × (count slab fs ≡ 0)
    absent_else = ground (arith, v.once slab)

    pub full-IsValid :
        (s.headers slab).free_objs ≡ 1 → IsValid pages laws full_cache full_state ps (slab ∷ fs)
    full-IsValid last = record {
      sound = v.sound;
      size = v.size;
      partial =
          Chain-frame (next_of pages s) (next_of pages full_state) (next_of pages s slab) ps
            v.partial.2 (λ q h. ground (arith, absent_else));
      full = Chain-cons (next_of pages full_state) c.full slab fs v.partial.1 (ground arith) (
          Chain-frame (next_of pages s) (next_of pages full_state) c.full fs v.full
            (λ q h. ground (arith, absent_else)));
      once = λ q. omega (arith, v.once q);
      member = λ q m.
          replaced-Member pages laws c.obj_size slab q s full_state
            (record (used_header (s.headers slab) idx) { next = c.full })
            (v.member q (omega (arith, m)))
            (IsSlab-next c.obj_size c.full (used_header (s.headers slab) idx) marking.0)
            (λ r. ground arith) refl;
      has_room = λ q m. ground (arith, v.has_room q, absent_else);
      no_room = λ q m. ground (arith, v.no_room q, marking.1, last);
    }

    pub room-IsValid :
        (s.headers slab).free_objs ≢ 1 → IsValid pages laws counting marked (slab ∷ ps) fs
    room-IsValid more = record {
      sound = v.sound;
      size = v.size;
      partial =
          Chain-frame (next_of pages s) (next_of pages marked) c.partial (slab ∷ ps) v.partial
            (λ q h. ground arith);
      full =
          Chain-frame (next_of pages s) (next_of pages marked) c.full fs v.full
            (λ q h. ground arith);
      once = v.once;
      member = λ q m.
          replaced-Member pages laws c.obj_size slab q s marked (used_header (s.headers slab) idx)
            (v.member q m) marking.0 (λ r. refl) refl;
      has_room = λ q m. ground (arith, v.has_room q, marking.1);
      no_room = λ q m. ground (arith, v.no_room q, absent_else);
    }

    pub take_was_free : live pages laws c s (slab ∷ ps) fs slab idx ≡ false
    take_was_free = ground (arith, clear)

    pub room-live :
        (q i : ℕ)
        → live pages laws counting marked (slab ∷ ps) fs q i
          ≡ ((slab == q && idx == i) || live pages laws c s (slab ∷ ps) fs q i)
    room-live q i = ground (arith, bitmap_test-set (s.headers slab).free_bitmap idx i, inside)

    pub full-live :
        (q i : ℕ)
        → live pages laws full_cache full_state ps (slab ∷ fs) q i
          ≡ ((slab == q && idx == i) || live pages laws c s (slab ∷ ps) fs q i)
    full-live q i = ground (arith, bitmap_test-set (s.headers slab).free_bitmap idx i, inside)

    pub take_room :
        (fuel : ℕ)
        → (s.headers slab).free_objs ≢ 1
        → take_object pages fuel slab idx c s ≡ some (object c.obj_size slab idx, counting, marked)
    unfolding take_object
    take_room fuel more = ground (
      arith,
      marking.1,
      slab_get_obj_lem c.obj_size slab idx (s.headers slab) v.size here.header inside,
    )

    pub take_last :
        (fuel : ℕ)
        → (s.headers slab).free_objs ≡ 1
        → take_object pages fuel slab idx c s
          ≡ some (object c.obj_size slab idx, full_cache, full_state)
    unfolding take_object unlink
    take_last fuel last = ground (
      arith,
      marking.1,
      v.partial.0,
      slab_get_obj_lem c.obj_size slab idx (s.headers slab) v.size here.header inside,
    )
