-- ===== src/Mm/Slab/Return.antt =====
-- `slab_free` of mm/slab.c: an object is marked free, and a slab that was full goes to the partial ones.
use mathlib.Core.Path.{subst}
use sinux.Prelude.{
  ℕ, ◌+◌, ◌≤◌, ◌<◌, ◌≡◌, refl, ap, ◌∙◌, true, false, not, ◌&&◌, some, List, ◌∷◌, ◌++◌, length,
  length-append, dec_lt, if◌then◌else◌, ◌==◌, arith,
}
use sinux.Mm.Pages.{Pages, PagesLaws}
use sinux.Mm.Phys.{u64}
use sinux.Mm.Slab.{
  Header, Bitmap, Cache, Slabs, mark_free, freed_header, set_next, next_of, bitmap_test, capacity,
  leave_full,
}
use sinux.Mm.Slab.Bits.{bitmap_test-clear}
use sinux.Mm.Slab.Chain.{
  Chain, Chain-frame, Chain-cons, Chain-ne_zero, count, count-append, split_at, Relinked,
  Relinked-trans, same_header, set_next-Relinked, Unlinked, unlink-Unlinked,
}
use sinux.Mm.Slab.Page.{
  IsSlab, freed_header-IsSlab, Member, IsValid, live, replaced-Member, Relinked-Member,
}

module _ (pages : Pages) (laws : PagesLaws pages) where
  -- Object i of the slab q is free, and no other has changed.
  pub record Freed (c : Cache) (s : Slabs pages) (ps fs : List ℕ) (q i : ℕ) (d : Cache)
      (t : Slabs pages) : Type 0 where
    pub ps' : List ℕ
    pub fs' : List ℕ
    pub valid : IsValid pages laws d t ps' fs'
    pub size_kept : d.obj_size ≡ c.obj_size
    pub fewer : (r : ℕ) → count r ps' + count r fs' ≤ count r ps + count r fs
    pub others : (r : ℕ) → count r ps + count r fs ≡ 0 → t.headers r ≡ s.headers r
    pub kept :
        (r : ℕ)
        → count r ps + count r fs ≡ 0
        → laws.Owned s.free_pages r
        → laws.Owned t.free_pages r
    pub lives :
        (r j : ℕ)
        → live pages laws d t ps' fs' r j
          ≡ (not (q == r && i == j) && live pages laws c s ps fs r j)

  module _ (c : Cache) (s : Slabs pages) (ps fs : List ℕ) (v : IsValid pages laws c s ps fs)
      (q i : ℕ) (used : live pages laws c s ps fs q i ≡ true) where
    abbrev marked : Slabs pages
    marked = mark_free pages q i s

    abbrev counting : Cache
    counting = record c { num_frees = u64 (c.num_frees + 1) }

    here : 0 < count q ps + count q fs
    here = ground arith

    inside : i < capacity c.obj_size
    inside = ground arith

    marking :
        IsSlab c.obj_size (freed_header (s.headers q) i)
        × ((freed_header (s.headers q) i).free_objs ≡ (s.headers q).free_objs + 1)
    marking =
        freed_header-IsSlab c.obj_size i (s.headers q) v.size (v.member q here).header inside
          (ground arith)

    marked-Member : (r : ℕ) → 0 < count r ps + count r fs → Member pages laws c.obj_size marked r
    marked-Member r m =
        replaced-Member pages laws c.obj_size q r s marked (freed_header (s.headers q) i)
          (v.member r m) marking.0 (λ p. refl) refl

    marked-links :
        (a : ℕ) (xs : List ℕ) → Chain (next_of pages s) a xs → Chain (next_of pages marked) a xs
    marked-links a xs h =
        Chain-frame (next_of pages s) (next_of pages marked) a xs h (λ r m. ground arith)

    stays-IsValid : 0 < count q ps → IsValid pages laws counting marked ps fs
    stays-IsValid room = record {
      sound = v.sound;
      size = v.size;
      partial = marked-links c.partial ps v.partial;
      full = marked-links c.full fs v.full;
      once = v.once;
      member = marked-Member;
      has_room = λ r m. ground (arith, v.has_room r, marking.1);
      no_room = λ r m. ground (arith, v.no_room r, v.once q);
    }

    stays-live :
        (r j : ℕ)
        → live pages laws counting marked ps fs r j
          ≡ (not (q == r && i == j) && live pages laws c s ps fs r j)
    stays-live r j = ground (arith, bitmap_test-clear (s.headers q).free_bitmap i j)

    module _ (xs ys : List ℕ) (at : fs ≡ xs ++ (q ∷ ys)) (r : ℕ × Slabs pages)
        (u : Unlinked pages marked q xs ys r) where
      abbrev moved : Slabs pages
      moved = set_next pages q c.partial r.1

      abbrev moved_cache : Cache
      moved_cache = record counting { full = r.0; partial = q }

      fs_count : (p : ℕ) → count p fs ≡ count p (xs ++ ys) + (if q == p then 1 else 0)
      fs_count p = rw at (omega (arith, count-append p xs (q ∷ ys), count-append p xs ys))

      xs_count : (p : ℕ) → count p xs ≤ count p (xs ++ ys)
      xs_count p = omega (arith, count-append p xs ys)

      relinked : Relinked pages marked moved
      relinked =
          Relinked-trans pages marked r.1 moved u.relinked (set_next-Relinked pages q c.partial r.1)

      same_free : (p : ℕ) → (moved.headers p).free_objs ≡ (marked.headers p).free_objs
      same_free p = ap (λ (h : Header). h.free_objs) (relinked.at p)

      same_bits : (p : ℕ) → (moved.headers p).free_bitmap ≡ (marked.headers p).free_bitmap
      same_bits p = ap (λ (h : Header). h.free_bitmap) (relinked.at p)

      in_full : count q fs ≡ 1
      in_full = ground (arith, fs_count q, v.once q)

      moves_others : (p : ℕ) → count p ps + count p fs ≡ 0 → moved.headers p ≡ s.headers p
      moves_others p m =
          let apart : (q == p) ≡ false = ground arith in
          let link : next_of pages r.1 p ≡ next_of pages marked p =
            u.others p (omega (arith, fs_count p, xs_count p)) in
          rw apart (same_header pages marked r.1 p u.relinked link ∙ rw apart refl)

      moves-IsValid : IsValid pages laws moved_cache moved (q ∷ ps) (xs ++ ys)
      moves-IsValid = record {
        sound = rw u.relinked.kept v.sound;
        size = v.size;
        partial =
            Chain-cons (next_of pages moved) c.partial q ps
              (Chain-ne_zero (next_of pages s) c.full fs q v.full (omega (arith, in_full)))
              (ground arith)
              (Chain-frame (next_of pages s) (next_of pages moved) c.partial ps v.partial
                (λ p m. ground (arith, u.others p, v.once p, fs_count p, xs_count p, in_full)));
        full =
            Chain-frame (next_of pages r.1) (next_of pages moved) r.0 (xs ++ ys) u.chain
              (λ p m. ground (arith, v.once q, fs_count q));
        once = λ p. omega (arith, v.once p, fs_count p);
        member = λ p m.
            Relinked-Member pages laws c.obj_size p marked moved relinked
              (marked-Member p (omega (arith, fs_count p)));
        has_room = λ p m. ground (arith, same_free p, v.has_room p, marking.1);
        no_room = λ p m. ground (arith, same_free p, v.no_room p, fs_count p, v.once q);
      }

      moves-live :
          (p j : ℕ)
          → live pages laws moved_cache moved (q ∷ ps) (xs ++ ys) p j
            ≡ (not (q == p && i == j) && live pages laws c s ps fs p j)
      moves-live p j = ground (
        arith,
        ap (λ (b : Bitmap). bitmap_test b j) (same_bits p),
        bitmap_test-clear (s.headers q).free_bitmap i j,
        fs_count p,
      )

    -- After `if (was_full) …` the slab is a partial one.
    pub leave_full-Freed :
        (fuel : ℕ)
        → length fs ≤ fuel
        → (d : Cache) × (t : Slabs pages) × (leave_full pages
              ((s.headers q).free_objs == 0)
              fuel
              q
              counting
              marked
            ≡ some (d, t))
          × (f : Freed c s ps fs q i d t) × (0 < count q f.ps')
          × (length f.ps' ≤ length ps + length fs)
    unfolding leave_full
    leave_full-Freed fuel h = elim (dec_lt 0 (count q ps)) [
      | yes room ↦ (
        counting,
        marked,
        (let w = v.has_room q room in
            let e : ((s.headers q).free_objs == 0) ≡ false = ground arith in rw e refl),
        record {
          ps' = ps;
          fs' = fs;
          valid = stays-IsValid room;
          size_kept = refl;
          fewer = λ r. omega arith;
          others = λ r m. ground arith;
          kept = λ r m o. o;
          lives = stays-live;
        },
        room,
        omega arith,
      )
      | no none_left ↦
          let (xs, ys, at, none_before) = split_at q fs (omega (arith, here)) in
          let longer : length xs ≤ fuel =
            omega (arith, ap (length {A = ℕ}) at, length-append xs (q ∷ ys)) in
          let (r, e, u) =
            unlink-Unlinked pages fuel q c.full marked xs ys
              (subst (λ l. Chain (next_of pages marked) c.full l) at
                (marked-links c.full fs v.full))
              (λ p. omega (arith, v.once p, ap (count p) at)) longer in
          let full : ((s.headers q).free_objs == 0) ≡ true =
            ground (arith, v.no_room q (omega (arith, here))) in
          (
            moved_cache xs ys at r u,
            moved xs ys at r u,
            rw (full, e) refl,
            record {
              ps' = q ∷ ps;
              fs' = xs ++ ys;
              valid = moves-IsValid xs ys at r u;
              size_kept = refl;
              fewer = λ p. omega (arith, fs_count xs ys at r u p);
              others = moves_others xs ys at r u;
              kept = λ p m o. rw u.relinked.kept o;
              lives = moves-live xs ys at r u;
            },
            ground arith,
            omega (arith, ap (length {A = ℕ}) at, length-append xs (q ∷ ys)),
          )
    ]
