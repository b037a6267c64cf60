-- ===== src/Mm/Slab/Free.antt =====
-- `slab_free` of mm/slab.c, given an object in use.
use native.Mathlib.Nat.{mul-mod_left, mul-div_cancel}
use sinux.Prelude.{
  ℕ, ◌+◌, ◌-◌, ◌*◌, ◌/◌, ◌%◌, ◌≤◌, ◌<◌, ◌≡◌, refl, ap, ◌∙◌, ◌≢◌, true, some, List, length, ◌==◌,
  arith, neq_false,
}
use sinux.Mm.Pages.{Pages, PagesLaws}
use sinux.Mm.Phys.{page_down, u64}
use sinux.Mm.Slab.{
  Header, Cache, Slabs, header_size, slab_magic, slab_find_obj_idx, bitmap_test, capacity,
  leave_full, then_give, mark_free, give_back, free_object, free_at, slab_free,
}
use sinux.Mm.Slab.Chain.{count}
use sinux.Mm.Slab.Page.{IsSlab, IsSize, IsValid, live, object, object-page_down}
use sinux.Mm.Slab.Return.{Freed, leave_full-Freed}
use sinux.Mm.Slab.Shrink.{give_back-Shrunk}

slab_find_obj_idx-object :
    (size q i : ℕ) (h : Header)
    → IsSize size
    → IsSlab size h
    → i < capacity size
    → slab_find_obj_idx h q (object size q i) ≡ some i
unfolding slab_find_obj_idx
slab_find_obj_idx-object size q i h z s l =
    let shift : q + header_size + i * size - (q + header_size) ≡ i * size = omega arith in
    let exact : i * size % size ≡ 0 = mul-mod_left i size in
    let back : i * size / size ≡ i = mul-div_cancel i z.positive in
    rw (shift, s.obj_size, s.total, exact, back) (ground arith)

module _ (pages : Pages) (laws : PagesLaws pages) where
  reaches :
      (fuel : ℕ) (c : Cache) (s : Slabs pages) (q i ptr : ℕ)
      → page_down ptr ≡ q
      → ptr ≢ 0
      → (s.headers q).magic ≡ slab_magic
      → slab_find_obj_idx (s.headers q) q ptr ≡ some i
      → bitmap_test (s.headers q).free_bitmap i ≡ true
      → slab_free pages fuel c ptr s ≡ free_object pages fuel q i c s
  unfolding slab_free free_at
  reaches fuel c s q i ptr at ne magic found used =
      let ok : ((s.headers q).magic == slab_magic) ≡ true = rw magic refl in
      rw (at, neq_false ptr 0 ne, found, ok, used) refl

  then_gives :
      (fuel q i : ℕ) (c d : Cache) (s t : Slabs pages)
      → leave_full pages
          ((s.headers q).free_objs == 0)
          fuel
          q
          (record c { num_frees = u64 (c.num_frees + 1) })
          (mark_free pages q i s)
        ≡ some (d, t)
      → free_object pages fuel q i c s ≡ give_back pages fuel q (d, t)
  unfolding free_object
  then_gives fuel q i c d s t e = ap (then_give pages fuel q) e

  -- `slab_free` given an object in use ends, frees it, and leaves every other object as it was.
  pub slab_free_lem :
      (fuel : ℕ) (c : Cache) (s : Slabs pages) (ps fs : List ℕ) (q i : ℕ)
      → IsValid pages laws c s ps fs
      → live pages laws c s ps fs q i ≡ true
      → length ps + length fs ≤ fuel
      → (d : Cache) × (t : Slabs pages) × (slab_free pages fuel c (object c.obj_size q i) s
          ≡ some (d, t))
        × Freed pages laws c s ps fs q i d t
  slab_free_lem fuel c s ps fs q i v used h =
      let here : 0 < count q ps + count q fs = ground arith in
      let inside : i < capacity c.obj_size = ground arith in
      let m = v.member q here in
      let (d, t, e, f, room, short) =
        leave_full-Freed pages laws c s ps fs v q i used fuel (omega arith) in
      let (d', t', e', k) =
        give_back-Shrunk pages laws fuel d t f.ps' f.fs' q f.valid room (omega arith) in
      (
        d',
        t',
        reaches fuel c s q i (object c.obj_size q i)
              (object-page_down c.obj_size q i v.size m.aligned inside) (λ z. absurd (omega arith))
              m.header.magic
              (slab_find_obj_idx-object c.obj_size q i (s.headers q) v.size m.header inside)
              (ground arith)
            ∙ then_gives fuel q i c d s t e
            ∙ e',
        record {
          ps' = k.ps';
          fs' = f.fs';
          valid = k.valid;
          size_kept = k.size_kept ∙ f.size_kept;
          fewer = λ r. omega (arith, f.fewer r, k.fewer r);
          others = λ r m. k.others r (omega (arith, f.fewer r)) ∙ f.others r m;
          kept = λ r m o. k.kept r (omega (arith, f.fewer r)) (f.kept r m o);
          lives = λ r j. k.lives r j ∙ f.lives r j;
        },
      )
