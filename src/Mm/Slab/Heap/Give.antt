-- ===== src/Mm/Slab/Heap/Give.antt =====
-- `kmalloc_slab` of mm/slab.c for a size that one of the eight caches serves.
use mathlib.Core.Option
use mathlib.Core.Path.{subst}
use sinux.Prelude.{
  ℕ, ◌+◌, ◌≤◌, ◌<◌, ◌≡◌, refl, ap, sym, ◌∙◌, ◌≢◌, ◌⊎◌, inl, inr, true, false, ◌&&◌, ◌||◌, some,
  List, get_or, update, ltb, ◌==◌, arith, dec_lt, ℕ_discrete, Bool-cases, ==_iff,
}
use sinux.Mm.Pages.{Pages, PagesLaws}
use sinux.Mm.Slab.{Cache, Slabs, slab_alloc}
use sinux.Mm.Slab.Chain.{count}
use sinux.Mm.Slab.Page.{live, object, object_apart, page_apart}
use sinux.Mm.Slab.Alloc.{Allocated, slab_alloc_lem}
use sinux.Mm.Slab.Heap.{Heap, sizes, kmalloc_slab, alloc_class, put_size}
use sinux.Mm.Slab.Heap.Classes.{class_from_lem}
use sinux.Mm.Slab.Heap.Objects.{IsHeap, given, with_cache, changed-IsHeap, changed_others}

module _ (pages : Pages) (laws : PagesLaws pages) where
  -- The cache k has given out its object i of the slab q, at the address obj. `apart` says that no object
  -- in use, of any of the caches, overlaps it.
  pub record Given (h : Heap pages) (ps fs : ℕ → List ℕ) (size obj : ℕ) (h' : Heap pages)
      : Type 0 where
    pub k : ℕ
    pub slab : ℕ
    pub idx : ℕ
    pub ps' : ℕ → List ℕ
    pub fs' : ℕ → List ℕ
    pub valid : IsHeap pages laws h' ps' fs'
    pub class : k < 8
    pub fits : size ≤ get_or sizes k 0
    pub smallest : (j : ℕ) → j < k → get_or sizes j 0 < size
    pub address : obj ≡ object (get_or sizes k 0) slab idx
    pub gives :
        (j q i : ℕ)
        → j < 8
        → given pages laws h' ps' fs' j q i
          ≡ ((k == j && (slab == q && idx == i)) || given pages laws h ps fs j q i)
    pub was_free : given pages laws h ps fs k slab idx ≡ false
    pub apart :
        (j q i : ℕ)
        → j < 8
        → given pages laws h ps fs j q i ≡ true
        → (obj + get_or sizes k 0 ≤ object (get_or sizes j 0) q i)
          ⊎ (object (get_or sizes j 0) q i + get_or sizes j 0 ≤ obj)

  module _ (h : Heap pages) (ps fs : ℕ → List ℕ) (v : IsHeap pages laws h ps fs) (k : ℕ) (l : k < 8)
      (obj : ℕ) (d : Cache) (t : Slabs pages)
      (a : Allocated pages laws (h.size_caches k) h.slabs (ps k) (fs k) obj d t) where
    foreign :
        (q : ℕ)
        → laws.Owned h.slabs.free_pages q
        → count q (ps k) + count q (fs k) ≡ 0
        → (t.headers q ≡ h.slabs.headers q)
          × laws.Owned t.free_pages q
          × (count q a.ps' + count q a.fs' ≡ 0)
    foreign q own none_before =
        let gone : count q a.ps' + count q a.fs' ≡ 0 =
          elim (dec_lt 0 (count q a.ps' + count q a.fs')) [
            | yes m ↦ absurd (a.new q m none_before own)
            | no m ↦ omega arith
          ] in
        (a.others q none_before gone, a.kept q own, gone)

    abbrev size_of : ℕ → ℕ
    size_of j = (h.size_caches j).obj_size

    member_after : 0 < count a.slab a.ps' + count a.slab a.fs'
    member_after = ground (arith, a.lives a.slab a.idx)

    same_apart :
        (q i : ℕ)
        → given pages laws h ps fs k q i ≡ true
        → (object (size_of k) a.slab a.idx + size_of k ≤ object (size_of k) q i)
          ⊎ (object (size_of k) q i + size_of k ≤ object (size_of k) a.slab a.idx)
    same_apart q i used =
        let c = v.cache k l in
        let ne : (a.slab == q && a.idx == i) ≡ false = ground (arith, a.was_free) in
        let m = c.member q (ground arith) in
        object_apart (size_of k) a.slab a.idx q i c.size a.aligned m.aligned a.inside (ground arith)
          ne

    other_apart :
        (j q i : ℕ)
        → j < 8
        → j ≢ k
        → given pages laws h ps fs j q i ≡ true
        → (object (size_of k) a.slab a.idx + size_of k ≤ object (size_of j) q i)
          ⊎ (object (size_of j) q i + size_of j ≤ object (size_of k) a.slab a.idx)
    other_apart j q i b ne used =
        let c = v.cache j b in
        let here : 0 < count q (ps j) + count q (fs j) = ground arith in
        let m = c.member q here in
        let gone = (foreign q m.owned (v.apart j k q b l ne here)).2 in
        let away : a.slab ≢ q = λ e. absurd (omega (arith, member_after, rw (← e) at gone)) in
        page_apart (size_of k) (size_of j) a.slab a.idx q i (v.cache k l).size c.size a.aligned
          m.aligned a.inside (ground arith) away

    all_apart :
        (j q i : ℕ)
        → j < 8
        → given pages laws h ps fs j q i ≡ true
        → (obj + get_or sizes k 0 ≤ object (get_or sizes j 0) q i)
          ⊎ (object (get_or sizes j 0) q i + get_or sizes j 0 ≤ obj)
    all_apart j q i b used =
        rw (← (v.sized k l), ← (v.sized j b), a.address)
          (elim (ℕ_discrete j k) [
            | yes e ↦
                subst
                  (λ n.
                    (object (size_of k) a.slab a.idx + size_of k ≤ object (size_of n) q i)
                    ⊎ (object (size_of n) q i + size_of n ≤ object (size_of k) a.slab a.idx))
                  (sym e)
                  (same_apart q i (subst (λ n. given pages laws h ps fs n q i ≡ true) e used))
            | no ne ↦ other_apart j q i b ne used
          ])

    all_gives :
        (j q i : ℕ)
        → j < 8
        → given pages laws
            (with_cache pages laws h k d t)
            (update ps k a.ps')
            (update fs k a.fs')
            j
            q
            i
          ≡ ((k == j && (a.slab == q && a.idx == i)) || given pages laws h ps fs j q i)
    all_gives j q i b = elim (Bool-cases (k == j)) [
      | inl e ↦
          let at : k ≡ j = (==_iff k j).0 e in
          rw e (
            subst
              (λ n.
                live pages laws d t a.ps' a.fs' q i
                ≡ ((a.slab == q && a.idx == i) || given pages laws h ps fs n q i))
              at (a.lives q i))
      | inr e ↦
          let ne : j ≢ k = ground arith in
          let same =
            changed_others pages laws h ps fs v k l d t a.ps' a.fs' a.valid a.size_kept foreign j q
              i b ne in
          same ∙ rw e refl
    ]

    allocated-Given :
        (size : ℕ)
        → size ≤ get_or sizes k 0
        → ((j : ℕ) → j < k → get_or sizes j 0 < size)
        → Given h ps fs size obj (with_cache pages laws h k d t)
    allocated-Given size fit least = record {
      k = k;
      slab = a.slab;
      idx = a.idx;
      ps' = update ps k a.ps';
      fs' = update fs k a.fs';
      valid = changed-IsHeap pages laws h ps fs v k l d t a.ps' a.fs' a.valid a.size_kept foreign;
      class = l;
      fits = fit;
      smallest = least;
      address = a.address ∙ ap (λ s. object s a.slab a.idx) (v.sized k l);
      gives = all_gives;
      was_free = a.was_free;
      apart = all_apart;
    }

  class_lem :
      (h : Heap pages) (ps fs : ℕ → List ℕ) (fuel size : ℕ)
      → IsHeap pages laws h ps fs
      → 0 < size
      → size ≤ 2048
      → (k : ℕ) × (kmalloc_slab pages fuel size h ≡ alloc_class pages (some k) fuel h)
        × (k < 8)
        × (size ≤ get_or sizes k 0)
        × ((j : ℕ) → j < k → get_or sizes j 0 < size)
  unfolding kmalloc_slab
  class_lem h ps fs fuel size v pos small =
      let (k, e, from, to, fit, first) =
        class_from_lem pages h 8 0 size 7 (omega arith) (omega arith)
          (rw (v.sized 7 (omega arith)) small) in
      let some_size : (size == 0) ≡ false = ground arith in
      let in_class : ltb 2048 size ≡ false = ground arith in
      (
        k,
        rw (some_size, in_class, e) refl,
        omega arith,
        rw (← (v.sized k (omega arith))) fit,
        λ j b. rw (← (v.sized j (omega arith))) (first j (omega arith) b),
      )

  from_cache :
      (fuel k : ℕ) (h : Heap pages) (obj : ℕ) (d : Cache) (t : Slabs pages)
      → slab_alloc pages fuel (h.size_caches k) h.slabs ≡ some (obj, d, t)
      → alloc_class pages (some k) fuel h ≡ some (obj, with_cache pages laws h k d t)
  unfolding alloc_class
  from_cache fuel k h obj d t e = ap (Option.map (put_size pages k h)) e

  -- What `kmalloc_slab` gives for a size of the caches: NULL, where there is no page, or an object.
  abbrev pub Gives : ℕ → ℕ → Heap pages → (ℕ → List ℕ) → (ℕ → List ℕ) → Type 0
  Gives fuel size h ps fs =
      (((pages.alloc h.slabs.free_pages).0 ≡ 0)
        × ((h' : Heap pages) × (kmalloc_slab pages fuel size h ≡ some (0, h'))))
      ⊎ ((obj : ℕ) × (h' : Heap pages) × (kmalloc_slab pages fuel size h ≡ some (obj, h'))
          × Given h ps fs size obj h')

  -- `kmalloc_slab` of 1 to 2048 bytes, the eight caches in a valid state, ends with any fuel. Either the
  -- allocator of pages has no page and the result is NULL; or it is an object of the smallest size that
  -- is enough, which was free and overlaps no object that any of the caches has given out, and then it is
  -- given out, every other object is as before, and the caches are valid.
  pub kmalloc_slab_lem :
      (fuel size : ℕ) (h : Heap pages) (ps fs : ℕ → List ℕ)
      → IsHeap pages laws h ps fs
      → 0 < size
      → size ≤ 2048
      → Gives fuel size h ps fs
  kmalloc_slab_lem fuel size h ps fs v pos small =
      let (k, e, l, fit, least) = class_lem h ps fs fuel size v pos small in
      elim (slab_alloc_lem pages laws fuel (h.size_caches k) h.slabs (ps k) (fs k) (v.cache k l)) [
        | inl (none_left, no_page, f) ↦ inl (no_page, (_, e ∙ from_cache fuel k h _ _ _ f))
        | inr (obj, d, t, f, a) ↦ inr (
          obj,
          with_cache pages laws h k d t,
          e ∙ from_cache fuel k h obj d t f,
          allocated-Given h ps fs v k l obj d t a size fit least,
        )
      ]
