-- ===== src/Mm/Slab/Heap/TakeBack.antt =====
-- `kfree_slab` of mm/slab.c, given an object of one of the eight caches.
use mathlib.Core.Option
use mathlib.Core.Path.{subst}
use sinux.Prelude.{
  ℕ, ◌+◌, ◌≤◌, ◌<◌, ◌≡◌, refl, ap, ◌∙◌, ◌≢◌, inl, inr, true, not, ◌&&◌, some, List, length, get_or,
  update, ◌==◌, arith, Bool-cases, ==_iff, neq_false,
}
use sinux.Mm.Pages.{Pages, PagesLaws}
use sinux.Mm.Phys.{page_down}
use sinux.Mm.Slab.{Cache, Slabs, capacity, slab_free, slab_magic}
use sinux.Mm.Slab.Chain.{count}
use sinux.Mm.Slab.Page.{live, object, object-page_down}
use sinux.Mm.Slab.Return.{Freed}
use sinux.Mm.Slab.Free.{slab_free_lem}
use sinux.Mm.Slab.Heap.{Heap, sizes, kfree_slab, free_in, freed_size, size_match}
use sinux.Mm.Slab.Heap.Classes.{size_match_lem, sizes_rise}
use sinux.Mm.Slab.Heap.Objects.{IsHeap, given, with_cache, changed-IsHeap, changed_others}

module _ (pages : Pages) (laws : PagesLaws pages) where
  -- Object i of the slab q, of the cache k, is free, and no other object of any cache has changed.
  pub record TakenBack (h : Heap pages) (ps fs : ℕ → List ℕ) (k q i : ℕ) (h' : Heap pages)
      : Type 0 where
    pub ps' : ℕ → List ℕ
    pub fs' : ℕ → List ℕ
    pub valid : IsHeap pages laws h' ps' fs'
    pub gives :
        (j r n : ℕ)
        → j < 8
        → given pages laws h' ps' fs' j r n
          ≡ (not (k == j && (q == r && i == n)) && given pages laws h ps fs j r n)

  module _ (h : Heap pages) (ps fs : ℕ → List ℕ) (v : IsHeap pages laws h ps fs) (k q i : ℕ)
      (l : k < 8) (d : Cache) (t : Slabs pages)
      (f : Freed pages laws (h.size_caches k) h.slabs (ps k) (fs k) q i d t) where
    foreign :
        (r : ℕ)
        → laws.Owned h.slabs.free_pages r
        → count r (ps k) + count r (fs k) ≡ 0
        → (t.headers r ≡ h.slabs.headers r)
          × laws.Owned t.free_pages r
          × (count r f.ps' + count r f.fs' ≡ 0)
    foreign r own none_before =
        (f.others r none_before, f.kept r none_before own, omega (arith, f.fewer r))

    all_gives :
        (j r n : ℕ)
        → j < 8
        → given pages laws
            (with_cache pages laws h k d t)
            (update ps k f.ps')
            (update fs k f.fs')
            j
            r
            n
          ≡ (not (k == j && (q == r && i == n)) && given pages laws h ps fs j r n)
    all_gives j r n b = elim (Bool-cases (k == j)) [
      | inl e ↦
          let at : k ≡ j = (==_iff k j).0 e in
          rw e (
            subst
              (λ m.
                live pages laws d t f.ps' f.fs' r n
                ≡ (not (q == r && i == n) && given pages laws h ps fs m r n))
              at (f.lives r n))
      | inr e ↦
          let ne : j ≢ k = ground arith in
          changed_others pages laws h ps fs v k l d t f.ps' f.fs' f.valid f.size_kept foreign j r n
            b ne
          ∙ rw e refl
    ]

    freed-TakenBack : TakenBack h ps fs k q i (with_cache pages laws h k d t)
    freed-TakenBack = record {
      ps' = update ps k f.ps';
      fs' = update fs k f.fs';
      valid = changed-IsHeap pages laws h ps fs v k l d t f.ps' f.fs' f.valid f.size_kept foreign;
      gives = all_gives;
    }

  reaches :
      (fuel ptr k q : ℕ) (h : Heap pages)
      → page_down ptr ≡ q
      → ptr ≢ 0
      → ((h.slabs.headers q).magic == slab_magic) ≡ true
      → size_match pages 8 0 (h.slabs.headers q).obj_size h ≡ some k
      → kfree_slab pages fuel ptr h
        ≡ Option.map (freed_size pages k h) (slab_free pages fuel (h.size_caches k) ptr h.slabs)
  unfolding kfree_slab free_in
  reaches fuel ptr k q h at ne magic e = rw (at, neq_false ptr 0 ne, e, magic) refl

  -- `kfree_slab` of an object that one of the eight caches, in a valid state, has given out, with the
  -- number of that cache's slabs as fuel at least, ends: the object is free, every other object of every
  -- cache is given out or free as before, and the caches are valid.
  pub kfree_slab_lem :
      (fuel : ℕ) (h : Heap pages) (ps fs : ℕ → List ℕ) (k q i : ℕ)
      → IsHeap pages laws h ps fs
      → k < 8
      → given pages laws h ps fs k q i ≡ true
      → length (ps k) + length (fs k) ≤ fuel
      → (h' : Heap pages) × (kfree_slab pages fuel (object (get_or sizes k 0) q i) h ≡ some h')
        × TakenBack h ps fs k q i h'
  kfree_slab_lem fuel h ps fs k q i v l used enough =
      let c = v.cache k l in
      let here : 0 < count q (ps k) + count q (fs k) = ground arith in
      let inside : i < capacity (h.size_caches k).obj_size = ground arith in
      let m = c.member q here in
      let (d, t, e, f) =
        slab_free_lem pages laws fuel (h.size_caches k) h.slabs (ps k) (fs k) q i c used enough in
      let magic : ((h.slabs.headers q).magic == slab_magic) ≡ true = rw m.header.magic refl in
      let unlike : (j : ℕ)
          → 0 ≤ j
          → j < k
          → (h.size_caches j).obj_size ≢ (h.size_caches k).obj_size =
        λ j x y z.
          absurd (omega (arith, sizes_rise j k y l, v.sized j (omega arith), v.sized k l)) in
      let match : size_match pages 8 0 (h.slabs.headers q).obj_size h ≡ some k =
        ap (λ n. size_match pages 8 0 n h) m.header.obj_size
        ∙ size_match_lem pages h 8 0 k (omega arith) (omega arith) unlike in
      let at = object-page_down (h.size_caches k).obj_size q i c.size m.aligned inside in
      (
        with_cache pages laws h k d t,
        rw (← (v.sized k l)) (
            reaches fuel (object (h.size_caches k).obj_size q i) k q h at
              (λ z. absurd (omega arith)) magic match
            ∙ ap (Option.map (freed_size pages k h)) e),
        freed-TakenBack h ps fs v k q i l d t f,
      )
