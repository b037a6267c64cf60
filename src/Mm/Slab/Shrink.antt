-- ===== src/Mm/Slab/Shrink.antt =====
-- `slab_free` of mm/slab.c: a slab with no object in use is given back to the allocator of pages.
use mathlib.Core.Path.{subst}
use sinux.Prelude.{
  ℕ, ◌+◌, ◌≤◌, ◌<◌, ◌≡◌, refl, ap, ◌≢◌, inl, inr, false, ◌&&◌, some, List, ◌∷◌, ◌++◌, length,
  length-append, if◌then◌else◌, ltb, ◌==◌, arith, Bool-cases,
}
use sinux.Mm.Pages.{Pages, PagesLaws}
use sinux.Mm.Slab.{
  Header, Bitmap, Cache, Slabs, next_of, bitmap_test, capacity, give_back, drop_slab,
}
use sinux.Mm.Slab.Bits.{all_clear}
use sinux.Mm.Slab.Chain.{
  Chain, Chain-frame, count, count-append, split_at, same_header, Unlinked, unlink-Unlinked,
}
use sinux.Mm.Slab.Page.{Member, IsValid, live, Relinked-Member}

module _ (pages : Pages) (laws : PagesLaws pages) where
  -- The cache after `slab_free` has looked whether to give the slab back: no object has changed.
  pub record Shrunk (c : Cache) (s : Slabs pages) (ps fs : List ℕ) (d : Cache) (t : Slabs pages)
      : Type 0 where
    pub ps' : List ℕ
    pub valid : IsValid pages laws d t ps' fs
    pub size_kept : d.obj_size ≡ c.obj_size
    pub fewer : (r : ℕ) → count r ps' + count r fs ≤ count r ps + count r fs
    pub others : (r : ℕ) → count r ps + count r fs ≡ 0 → t.headers r ≡ s.headers r
    pub kept :
        (r : ℕ)
        → count r ps + count r fs ≡ 0
        → laws.Owned s.free_pages r
        → laws.Owned t.free_pages r
    pub lives : (r j : ℕ) → live pages laws d t ps' fs r j ≡ live pages laws c s ps fs r j

  module _ (c : Cache) (s : Slabs pages) (ps fs : List ℕ) (v : IsValid pages laws c s ps fs) (q : ℕ)
      (empty : (s.headers q).free_objs ≡ (s.headers q).total_objs) (xs ys : List ℕ)
      (at : ps ≡ xs ++ (q ∷ ys)) (r : ℕ × Slabs pages) (u : Unlinked pages s q xs ys r) where
    abbrev dropped : Slabs pages
    dropped = (drop_slab pages q c r).1

    abbrev smaller : Cache
    smaller = (drop_slab pages q c r).0

    ps_count : (p : ℕ) → count p ps ≡ count p (xs ++ ys) + (if q == p then 1 else 0)
    ps_count p = rw at (omega (arith, count-append p xs (q ∷ ys), count-append p xs ys))

    xs_count : (p : ℕ) → count p xs ≤ count p (xs ++ ys)
    xs_count p = omega (arith, count-append p xs ys)

    mine : 0 < count q ps + count q fs
    mine = ground (arith, ps_count q)

    alone : (p : ℕ) → 0 < count p (xs ++ ys) + count p fs → q ≢ p
    alone p m = ground (arith, v.once q, ps_count q)

    same_free : (p : ℕ) → (dropped.headers p).free_objs ≡ (s.headers p).free_objs
    same_free p = ap (λ (h : Header). h.free_objs) (u.relinked.at p)

    same_bits : (p : ℕ) → (dropped.headers p).free_bitmap ≡ (s.headers p).free_bitmap
    same_bits p = ap (λ (h : Header). h.free_bitmap) (u.relinked.at p)

    dropped-Member :
        (p : ℕ) → 0 < count p (xs ++ ys) + count p fs → Member pages laws c.obj_size dropped p
    dropped-Member p m =
        let old =
          Relinked-Member pages laws c.obj_size p s r.1 u.relinked
            (v.member p (omega (arith, ps_count p))) in
        let own = (v.member q mine).owned in
        record {
          header = old.header;
          owned = rw u.relinked.kept (
              laws.free-keeps s.free_pages q p v.sound own
                (v.member p (omega (arith, ps_count p))).owned (alone p m));
          aligned = old.aligned;
        }

    drops_others : (p : ℕ) → count p ps + count p fs ≡ 0 → dropped.headers p ≡ s.headers p
    drops_others p m =
        let link : next_of pages r.1 p ≡ next_of pages s p =
          u.others p (omega (arith, ps_count p, xs_count p)) in
        same_header pages s r.1 p u.relinked link

    drops_kept :
        (p : ℕ)
        → count p ps + count p fs ≡ 0
        → laws.Owned s.free_pages p
        → laws.Owned dropped.free_pages p
    drops_kept p m o =
        rw u.relinked.kept (
          laws.free-keeps s.free_pages q p v.sound (v.member q mine).owned o (ground (arith, mine)))

    drops-IsValid : IsValid pages laws smaller dropped (xs ++ ys) fs
    drops-IsValid = record {
      sound = rw u.relinked.kept (laws.free-Sound s.free_pages q v.sound (v.member q mine).owned);
      size = v.size;
      partial = u.chain;
      full =
          Chain-frame (next_of pages s) (next_of pages r.1) c.full fs v.full
            (λ p m. u.others p (omega (arith, v.once p, ps_count p, xs_count p)));
      once = λ p. omega (arith, v.once p, ps_count p);
      member = dropped-Member;
      has_room = λ p m. ground (arith, same_free p, v.has_room p, ps_count p);
      no_room = λ p m. ground (arith, same_free p, v.no_room p);
    }

    no_live : (j : ℕ) → j < capacity c.obj_size → bitmap_test (s.headers q).free_bitmap j ≡ false
    no_live j l =
        let h = (v.member q mine).header in
        all_clear (capacity c.obj_size) j (s.headers q).free_bitmap
          (omega (arith, h.free, h.total, empty)) l

    drops-live :
        (p j : ℕ)
        → live pages laws smaller dropped (xs ++ ys) fs p j ≡ live pages laws c s ps fs p j
    drops-live p j =
        ground (
          arith,
          ap (λ (b : Bitmap). bitmap_test b j) (same_bits p),
          ps_count p,
          alone q,
          no_live j,
        )

  pub give_back-Shrunk :
      (fuel : ℕ) (c : Cache) (s : Slabs pages) (ps fs : List ℕ) (q : ℕ)
      → IsValid pages laws c s ps fs
      → 0 < count q ps
      → length ps ≤ fuel
      → (d : Cache) × (t : Slabs pages) × (give_back pages fuel q (c, s) ≡ some (d, t))
        × Shrunk c s ps fs d t
  unfolding give_back
  give_back-Shrunk fuel c s ps fs q v m h =
      let test = (s.headers q).free_objs == (s.headers q).total_objs && ltb 2 c.num_slabs in
      elim (Bool-cases test) [
        | inr keep ↦ (
          c,
          s,
          rw keep refl,
          record {
            ps' = ps;
            valid = v;
            size_kept = refl;
            fewer = λ r. omega arith;
            others = λ r m. refl;
            kept = λ r m o. o;
            lives = λ r j. refl;
          },
        )
        | inl drop ↦
            let (xs, ys, at, none_before) = split_at q ps m in
            let (r, e, u) =
              unlink-Unlinked pages fuel q c.partial s xs ys
                (subst (λ l. Chain (next_of pages s) c.partial l) at v.partial)
                (λ p. omega (arith, v.once p, ap (count p) at))
                (omega (arith, ap (length {A = ℕ}) at, length-append xs (q ∷ ys))) in
            let empty : (s.headers q).free_objs ≡ (s.headers q).total_objs = ground arith in
            (
              smaller c s ps fs v q empty xs ys at r u,
              dropped c s ps fs v q empty xs ys at r u,
              rw (drop, e) refl,
              record {
                ps' = xs ++ ys;
                valid = drops-IsValid c s ps fs v q empty xs ys at r u;
                size_kept = refl;
                fewer = λ p. omega (arith, ps_count c s ps fs v q empty xs ys at r u p);
                others = drops_others c s ps fs v q empty xs ys at r u;
                kept = drops_kept c s ps fs v q empty xs ys at r u;
                lives = drops-live c s ps fs v q empty xs ys at r u;
              },
            )
      ]
