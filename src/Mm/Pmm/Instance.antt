-- ===== src/Mm/Pmm/Instance.antt =====
-- mm/pmm.c as the allocator of pages that the heaps use. Page 0 is in use, as it is from boot on.
use sinux.Prelude.{
  ℕ, ◌*◌, ◌/◌, ◌%◌, ◌<◌, ◌≡◌, refl, ap, ◌∙◌, ◌≢◌, inl, inr, true, false, ◌==◌, arith,
}
use sinux.Mm.Phys.{page_size}
use sinux.Mm.Pages.{Pages, PagesLaws}
use sinux.Mm.Pmm.{Pmm, bm_test, bm_clear, give_page, pmm_alloc, pmm_free}
use sinux.Mm.Pmm.Alloc.{IsValid, pmm_alloc_lem}
use sinux.Mm.Pmm.Free.{pmm_free_lem}

abbrev pub pmm_pages : Pages
pmm_pages = record { State = Pmm; alloc = pmm_alloc; free = pmm_free }

pub record Sound (p : Pmm) : Type 0 where
  pub valid : IsValid p
  pub zero_used : bm_test p 0 ≡ true

pub record Owned (p : Pmm) (a : ℕ) : Type 0 where
  pub aligned : a % 4096 ≡ 0
  pub nonzero : a ≢ 0
  pub inside : a / page_size < p.total_pages
  pub used : bm_test p (a / page_size) ≡ true

index_of : (k a : ℕ) → a ≡ k * page_size → a / page_size ≡ k
index_of k a e = omega arith

index_used : (k a : ℕ) → a ≡ k * page_size → (p : Pmm) → bm_test p k ≡ false → ¬ Owned p a
index_used k a e p free o = let at = index_of k a e in ground (arith, rw at at o.used)

pub alloc-Sound : (p : Pmm) → Sound p → Sound (pmm_alloc p).1
alloc-Sound p s = elim (pmm_alloc_lem p s.valid) [
  | inl (all, e) ↦ rw e s
  | inr (k, a) ↦ record { valid = a.valid; zero_used = ground (arith, a.taken 0, s.zero_used) }
]

pub alloc-new :
    (p : Pmm)
    → Sound p
    → (pmm_alloc p).0 ≢ 0
    → ((pmm_alloc p).0 % 4096 ≡ 0)
      × ¬ Owned p (pmm_alloc p).0
      × Owned (pmm_alloc p).1 (pmm_alloc p).0
alloc-new p s ne = elim (pmm_alloc_lem p s.valid) [
  | inl (all, e) ↦ absurd (ne (ap (λ (r : ℕ × Pmm). r.0) e))
  | inr (k, a) ↦ (
    omega (arith, a.page),
    λ o. absurd (index_used k (pmm_alloc p).0 a.page p a.was_free o),
    record {
      aligned = omega (arith, a.page);
      nonzero = ne;
      inside = omega (arith, a.page, a.inside, a.total);
      used = rw (index_of k (pmm_alloc p).0 a.page) (ground (arith, a.taken k));
    },
  )
]

pub alloc-keeps : (p : Pmm) (q : ℕ) → Sound p → Owned p q → Owned (pmm_alloc p).1 q
alloc-keeps p q s o = elim (pmm_alloc_lem p s.valid) [
  | inl (all, e) ↦ rw e o
  | inr (k, a) ↦ record {
    aligned = o.aligned;
    nonzero = o.nonzero;
    inside = omega (arith, o.inside, a.total);
    used = ground (arith, a.taken (q / page_size), o.used);
  }
]

total-free : (p : Pmm) (a : ℕ) → (pmm_free p a).total_pages ≡ p.total_pages
unfolding pmm_free give_page bm_clear
total-free p a = ground arith

pub free-Sound : (p : Pmm) (a : ℕ) → Sound p → Owned p a → Sound (pmm_free p a)
free-Sound p a s o =
    let f = pmm_free_lem p a 0 s.valid (omega (arith, o.inside)) in
    let other : (a / page_size == 0) ≡ false = ground (arith, o.aligned, o.nonzero) in
    record { valid = f.0; zero_used = f.1 ∙ rw (other, s.zero_used) refl }

pub free-keeps :
    (p : Pmm) (a q : ℕ) → Sound p → Owned p a → Owned p q → a ≢ q → Owned (pmm_free p a) q
free-keeps p a q s o w ne =
    let f = pmm_free_lem p a (q / page_size) s.valid w.inside in
    let other : (a / page_size == q / page_size) ≡ false = ground (arith, o.aligned, w.aligned) in
    record {
      aligned = w.aligned;
      nonzero = w.nonzero;
      inside = omega (arith, w.inside, total-free p a);
      used = f.1 ∙ rw (other, w.used) refl;
    }

abbrev pub pmm_laws : PagesLaws pmm_pages
pmm_laws = record {
  Sound = Sound;
  Owned = Owned;
  alloc-Sound = alloc-Sound;
  alloc-new = alloc-new;
  alloc-keeps = alloc-keeps;
  free-Sound = free-Sound;
  free-keeps = free-keeps;
}
