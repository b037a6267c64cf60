-- ===== src/Mm/Slab/Heap/Objects.antt =====
-- mm/slab.c: the eight caches of sizes side by side, each with its own slabs.
use sinux.Prelude.{
  ℕ, ◌+◌, ◌≤◌, ◌<◌, ◌≡◌, refl, ◌≢◌, inl, inr, Bool, true, false, List, [], ltb, leb, ◌&&◌,
  holds_below, holds_below-at, lt→ltb, get_or, update, ◌==◌, arith, dec_lt, Bool-cases, ==_refl,
}
use sinux.Mm.Pages.{Pages, PagesLaws}
use sinux.Mm.Slab.{Cache, Slabs}
use sinux.Mm.Slab.Chain.{count}
use sinux.Mm.Slab.Page.{IsValid, live, frame-IsValid}
use sinux.Mm.Slab.Heap.{Heap, sizes, slab_init}

sizes_table : holds_below 8 (λ k. ltb 0 (get_or sizes k 0) && leb (get_or sizes k 0) 4040) ≡ true
unfolding holds_below
sizes_table = refl

sizes_bounds : (k : ℕ) → k < 8 → (0 < get_or sizes k 0) × (get_or sizes k 0 ≤ 4040)
sizes_bounds k l = ground (
  arith,
  holds_below-at 8 (λ k. ltb 0 (get_or sizes k 0) && leb (get_or sizes k 0) 4040) k sizes_table l,
)

module _ (pages : Pages) (laws : PagesLaws pages) where
  -- ps and fs are, for each cache, its slabs with room and those without; no slab is in two caches.
  pub record IsHeap (h : Heap pages) (ps fs : ℕ → List ℕ) : Type 0 where
    pub cache : (k : ℕ) → k < 8 → IsValid pages laws (h.size_caches k) h.slabs (ps k) (fs k)
    pub sized : (k : ℕ) → k < 8 → (h.size_caches k).obj_size ≡ get_or sizes k 0
    pub apart :
        (j k q : ℕ)
        → j < 8
        → k < 8
        → j ≢ k
        → 0 < count q (ps j) + count q (fs j)
        → count q (ps k) + count q (fs k) ≡ 0

  -- Whether object i of the slab q is given out by the cache j.
  abbrev pub given : Heap pages → (ℕ → List ℕ) → (ℕ → List ℕ) → ℕ → ℕ → ℕ → Bool
  given h ps fs j q i = live pages laws (h.size_caches j) h.slabs (ps j) (fs j) q i

  abbrev pub with_cache : Heap pages → ℕ → Cache → Slabs pages → Heap pages
  with_cache h k d t = record h { slabs = t; size_caches = update h.size_caches k d }

  -- One cache changes, and no slab of another with it.
  module _ (h : Heap pages) (ps fs : ℕ → List ℕ) (v : IsHeap h ps fs) (k : ℕ) (l : k < 8)
      (d : Cache) (t : Slabs pages) (ps' fs' : List ℕ) (w : IsValid pages laws d t ps' fs')
      (size : d.obj_size ≡ (h.size_caches k).obj_size)
      (foreign : (q : ℕ)
        → laws.Owned h.slabs.free_pages q
        → count q (ps k) + count q (fs k) ≡ 0
        → (t.headers q ≡ h.slabs.headers q)
          × laws.Owned t.free_pages q
          × (count q ps' + count q fs' ≡ 0)) where
    owned_by :
        (j q : ℕ) → j < 8 → 0 < count q (ps j) + count q (fs j) → laws.Owned h.slabs.free_pages q
    owned_by j q b m = ((v.cache j b).member q m).owned

    -- A slab of another cache.
    far :
        (j q : ℕ)
        → j < 8
        → j ≢ k
        → 0 < count q (ps j) + count q (fs j)
        → (t.headers q ≡ h.slabs.headers q)
          × laws.Owned t.free_pages q
          × (count q ps' + count q fs' ≡ 0)
    far j q b ne m = foreign q (owned_by j q b m) (v.apart j k q b l ne m)

    other_cache : (j : ℕ) → j < 8 → j ≢ k → IsValid pages laws (h.size_caches j) t (ps j) (fs j)
    other_cache j b ne =
        frame-IsValid pages laws (h.size_caches j) h.slabs t (ps j) (fs j) (v.cache j b) w.sound
          (λ q m. (far j q b ne m).0) (λ q m. (far j q b ne m).1)

    still_apart :
        (i j q : ℕ)
        → i < 8
        → j < 8
        → i ≢ j
        → 0 < count q (update ps k ps' i) + count q (update fs k fs' i)
        → count q (update ps k ps' j) + count q (update fs k fs' j) ≡ 0
    still_apart i j q a b ne m = elim (dec_lt 0 (count q (ps j) + count q (fs j))) [
      | yes x ↦ elim (dec_lt 0 (count q (ps i) + count q (fs i))) [
        | yes y ↦ ground (arith, v.apart i j q a b ne y)
        | no y ↦ ground (arith, far j q b)
      ]
      | no x ↦ ground (arith, far i q a)
    ]

    pub changed-IsHeap : IsHeap (with_cache h k d t) (update ps k ps') (update fs k fs')
    changed-IsHeap = record {
      cache = λ j b. elim (Bool-cases (k == j)) [
        | inl e ↦ rw e w
        | inr e ↦ rw e (other_cache j b (λ z. absurd (ground arith)))
      ];
      sized = λ j b. ground (arith, v.sized j b, v.sized k l, size);
      apart = still_apart;
    }

    pub changed_others :
        (j q i : ℕ)
        → j < 8
        → j ≢ k
        → given (with_cache h k d t) (update ps k ps') (update fs k fs') j q i ≡ given h ps fs j q i
    changed_others j q i b ne =
        let e : (k == j) ≡ false = ground arith in
        elim (dec_lt 0 (count q (ps j) + count q (fs j))) [
          | yes m ↦ rw (e, (far j q b ne m).0) refl
          | no m ↦ ground arith
        ]

    pub changed_self :
        (q i : ℕ)
        → given (with_cache h k d t) (update ps k ps') (update fs k fs') k q i
          ≡ live pages laws d t ps' fs' q i
    changed_self q i = rw (==_refl k) refl

  -- After `slab_init` the caches are empty.
  pub slab_init-IsHeap :
      (h : Heap pages)
      → laws.Sound h.slabs.free_pages
      → IsHeap (slab_init pages h) (λ k. []) (λ k. [])
  unfolding slab_init
  slab_init-IsHeap h sound = record {
    cache = λ k l. rw (lt→ltb k 8 l) (record {
      sound = sound;
      size = record { positive = (sizes_bounds k l).0; small = (sizes_bounds k l).1 };
      partial = refl;
      full = refl;
      once = λ q. omega arith;
      member = λ q m. absurd (omega arith);
      has_room = λ q m. absurd (omega arith);
      no_room = λ q m. absurd (omega arith);
    });
    sized = λ k l. rw (lt→ltb k 8 l) refl;
    apart = λ j k q a b ne m. refl;
  }
