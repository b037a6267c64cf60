-- ===== src/Mm/Pmm/Walk.antt =====
-- The third walk of `pmm_init` in mm/pmm.c, where the bitmap lies apart from what the walk reads.
use mathlib.Core.Option.{some-injective}
use sinux.Prelude.{
  ℕ, zero, suc, ◌+◌, ◌≡◌, refl, sym, ap, ◌∙◌, inl, inr, true, false, Option, none, some, List, [],
  ◌∷◌, ◌++◌, leb, ◌==◌, Bool-cases, Option-cases, arith, leb→le, ==_iff,
}
use sinux.Mm.Phys.{Mem, read32}
use sinux.Mm.Pmm.{Pmm}
use sinux.Mm.Pmm.Boot.{Entry, read_entry, entries, tags, tag_end, tag_mmap, tag_step, ◌then_append◌}
use sinux.Mm.Pmm.Init.{free_region, free_entries, free_tags}
use sinux.Mm.Pmm.Apart.{
  Apart, Clear, Clear-part, EntriesClear, TagsClear, free_region-Apart, free_regions,
  free_regions-Apart, read32-Apart, read_entry-Apart,
}

entries-end :
    (f es ep ee : ℕ) (m : Mem) → leb (ep + es) ee ≡ false → entries (suc f) m es ep ee ≡ some []
unfolding entries
entries-end f es ep ee m e = rw e refl

entries-next :
    (f es ep ee : ℕ) (m : Mem) (r : List Entry)
    → leb (ep + es) ee ≡ true
    → entries f m es (ep + es) ee ≡ some r
    → entries (suc f) m es ep ee ≡ some (read_entry m ep ∷ r)
unfolding entries
entries-next f es ep ee m r e later = rw (e, later) refl

entries-none :
    (f es ep ee : ℕ) (m : Mem)
    → leb (ep + es) ee ≡ true
    → entries f m es (ep + es) ee ≡ none
    → entries (suc f) m es ep ee ≡ none
unfolding entries
entries-none f es ep ee m e later = rw (e, later) refl

free_entries-end :
    (f ptr ep ee : ℕ) (p : Pmm)
    → leb (ep + read32 p.mem (ptr + 8)) ee ≡ false
    → free_entries (suc f) ptr ep ee p ≡ some p
unfolding free_entries
free_entries-end f ptr ep ee p e = rw e refl

free_entries-next :
    (f ptr ep ee : ℕ) (p : Pmm)
    → leb (ep + read32 p.mem (ptr + 8)) ee ≡ true
    → let q = free_region (read_entry p.mem ep) p in
      free_entries (suc f) ptr ep ee p ≡ free_entries f ptr (ep + read32 q.mem (ptr + 8)) ee q
unfolding free_entries
free_entries-next f ptr ep ee p e = rw e refl

free_entries-regions :
    (b n f ptr ep ee : ℕ) (m : Mem) (p : Pmm) (l : List Entry)
    → Apart b n m p
    → Clear b n 12 ptr
    → entries f m (read32 m (ptr + 8)) ep ee ≡ some l
    → EntriesClear b n f (read32 m (ptr + 8)) ep ee
    → free_entries f ptr ep ee p ≡ some (free_regions l p)
unfolding free_regions
free_entries-regions b n zero ptr ep ee m p l h c e clear = unfold entries in cc
free_entries-regions b n (suc f) ptr ep ee m p l h c e clear =
    let es = read32 m (ptr + 8) in
    let step = read32-Apart b n (ptr + 8) m p h (Clear-part b n 12 ptr 8 4 c (omega arith)) in
    let test : leb (ep + read32 p.mem (ptr + 8)) ee ≡ leb (ep + es) ee =
      ap (λ x. leb (ep + x) ee) step in
    elim (Bool-cases (leb (ep + es) ee)) [
      | inr ends ↦
          free_entries-end f ptr ep ee p (test ∙ ends)
          ∙ ap (λ x. some (free_regions x p))
              (some-injective _ _ (sym (entries-end f es ep ee m ends) ∙ e))
      | inl fits ↦ elim (Option-cases (entries f m es (ep + es) ee)) [
        | inl none_left ↦ cc (sym (entries-none f es ep ee m fits none_left) ∙ e)
        | inr (r, later) ↦
            let (here, rest) = clear (leb→le _ _ fits) in
            let entry = read_entry-Apart b n ep m p h here in
            let q = free_region (read_entry m ep) p in
            let h' = free_region-Apart b n (read_entry m ep) m p h in
            let step' =
              read32-Apart b n (ptr + 8) m q h' (Clear-part b n 12 ptr 8 4 c (omega arith)) in
            free_entries-next f ptr ep ee p (test ∙ fits)
            ∙ (ap
                  (λ x.
                    let u = free_region x p in
                    free_entries f ptr (ep + read32 u.mem (ptr + 8)) ee u)
                  entry
                ∙ (ap (λ x. free_entries f ptr (ep + x) ee q) step'
                    ∙ (free_entries-regions b n f ptr (ep + es) ee m q r h' c later rest
                        ∙ ap (λ x. some (free_regions x p))
                            (some-injective _ _
                              (sym (entries-next f es ep ee m r fits later) ∙ e)))))
      ]
    ]

free_regions-++ :
    (l r : List Entry) (p : Pmm) → free_regions (l ++ r) p ≡ free_regions r (free_regions l p)
unfolding free_regions
free_regions-++ [] r p = refl
free_regions-++ (e ∷ l) r p = free_regions-++ l r (free_region e p)

then_append-some :
    (a b : Option (List Entry)) (l : List Entry)
    → (a then_append b) ≡ some l
    → (x : List Entry) × (y : List Entry) × (a ≡ some x) × (b ≡ some y) × (x ++ y ≡ l)
then_append-some none b l e = cc
then_append-some (some x) none l e = cc
then_append-some (some x) (some y) l e = (x, y, refl, refl, some-injective _ _ e)

module _ (f ptr end : ℕ) (m : Mem) where
  tags-over : leb (ptr + 8) end ≡ false → tags (suc f) m ptr end ≡ some []
  unfolding tags
  tags-over e = rw e refl

  tags-last :
      leb (ptr + 8) end ≡ true → (read32 m ptr == tag_end) ≡ true → tags (suc f) m ptr end ≡ some []
  unfolding tags
  tags-last e k = rw (e, k) refl

  tags-other :
      leb (ptr + 8) end ≡ true
      → (read32 m ptr == tag_end) ≡ false
      → (read32 m ptr == tag_mmap) ≡ false
      → tags (suc f) m ptr end ≡ tags f m (ptr + tag_step (read32 m (ptr + 4))) end
  unfolding tags
  tags-other e k o = rw (e, k, o) refl

  tags-mmap :
      leb (ptr + 8) end ≡ true
      → (read32 m ptr == tag_end) ≡ false
      → (read32 m ptr == tag_mmap) ≡ true
      → tags (suc f) m ptr end ≡ (
          entries f m (read32 m (ptr + 8)) (ptr + 16) (ptr + read32 m (ptr + 4))
          then_append tags f m (ptr + tag_step (read32 m (ptr + 4))) end)
  unfolding tags
  tags-mmap e k o = rw (e, k, o) refl

module _ (f ptr end : ℕ) (p : Pmm) where
  free_tags-over : leb (ptr + 8) end ≡ false → free_tags (suc f) ptr end p ≡ some p
  unfolding free_tags
  free_tags-over e = rw e refl

  free_tags-last :
      leb (ptr + 8) end ≡ true
      → (read32 p.mem ptr == tag_end) ≡ true
      → free_tags (suc f) ptr end p ≡ some p
  unfolding free_tags
  free_tags-last e k = rw (e, k) refl

  free_tags-other :
      leb (ptr + 8) end ≡ true
      → (read32 p.mem ptr == tag_end) ≡ false
      → (read32 p.mem ptr == tag_mmap) ≡ false
      → free_tags (suc f) ptr end p ≡ free_tags f (ptr + tag_step (read32 p.mem (ptr + 4))) end p
  unfolding free_tags
  free_tags-other e k o = rw (e, k, o) refl

  free_tags-mmap :
      (q : Pmm)
      → leb (ptr + 8) end ≡ true
      → (read32 p.mem ptr == tag_end) ≡ false
      → (read32 p.mem ptr == tag_mmap) ≡ true
      → free_entries f ptr (ptr + 16) (ptr + read32 p.mem (ptr + 4)) p ≡ some q
      → free_tags (suc f) ptr end p ≡ free_tags f (ptr + tag_step (read32 q.mem (ptr + 4))) end q
  unfolding free_tags
  free_tags-mmap q e k o here = rw (e, k, o, here) refl

-- Where the walk reads nothing of the bitmap, the regions that it frees are those that the walks before
-- it came to.
pub free_tags-regions :
    (b n f ptr end : ℕ) (m : Mem) (p : Pmm) (l : List Entry)
    → Apart b n m p
    → tags f m ptr end ≡ some l
    → TagsClear b n f m ptr end
    → free_tags f ptr end p ≡ some (free_regions l p)
unfolding free_regions
free_tags-regions b n zero ptr end m p l h e clear = unfold tags in cc
free_tags-regions b n (suc f) ptr end m p l h e clear = elim (Bool-cases (leb (ptr + 8) end)) [
  | inr over ↦
      free_tags-over f ptr end p over
      ∙ ap (λ x. some (free_regions x p))
          (some-injective _ _ (sym (tags-over f ptr end m over) ∙ e))
  | inl fits ↦
      let (c, regions, rest) = clear (leb→le _ _ fits) in
      let kind = read32-Apart b n ptr m p h (λ j l. c j (omega arith)) in
      let sized = Clear-part b n 12 ptr 4 4 c (omega arith) in
      let size = read32-Apart b n (ptr + 4) m p h sized in
      let is : (k : ℕ) → (read32 p.mem ptr == k) ≡ (read32 m ptr == k) =
        λ k. ap (λ x. x == k) kind in
      elim (Bool-cases (read32 m ptr == tag_end)) [
        | inl last ↦
            free_tags-last f ptr end p fits (is tag_end ∙ last)
            ∙ ap (λ x. some (free_regions x p))
                (some-injective _ _ (sym (tags-last f ptr end m fits last) ∙ e))
        | inr more ↦ elim (Bool-cases (read32 m ptr == tag_mmap)) [
          | inr other ↦
              free_tags-other f ptr end p fits (is tag_end ∙ more) (is tag_mmap ∙ other)
              ∙ (ap (λ x. free_tags f (ptr + tag_step x) end p) size
                  ∙ free_tags-regions b n f (ptr + tag_step (read32 m (ptr + 4))) end m p l h
                      (sym (tags-other f ptr end m fits more other) ∙ e) (rest more))
          | inl mmap ↦
              let (x, y, ex, ey, both) =
                then_append-some _ _ l (sym (tags-mmap f ptr end m fits more mmap) ∙ e) in
              let q = free_regions x p in
              let h' = free_regions-Apart b n x m p h in
              let here =
                ap (λ z. free_entries f ptr (ptr + 16) (ptr + z) p) size
                ∙ free_entries-regions b n f ptr (ptr + 16) (ptr + read32 m (ptr + 4)) m p x h c ex
                    (regions ((==_iff _ _).0 mmap)) in
              free_tags-mmap f ptr end p q fits (is tag_end ∙ more) (is tag_mmap ∙ mmap) here
              ∙ (ap (λ z. free_tags f (ptr + tag_step z) end q)
                    (read32-Apart b n (ptr + 4) m q h' sized)
                  ∙ (free_tags-regions b n f (ptr + tag_step (read32 m (ptr + 4))) end m q y h' ey
                        (rest more)
                      ∙ (ap some (sym (free_regions-++ x y p))
                          ∙ ap (λ z. some (free_regions z p)) both)))
        ]
      ]
]
