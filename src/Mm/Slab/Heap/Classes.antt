-- ===== src/Mm/Slab/Heap/Classes.antt =====
-- mm/slab.c: which of the eight caches serves a size, and which one an object goes back to.
use sinux.Prelude.{
  ℕ, zero, suc, ◌+◌, ◌≤◌, ◌<◌, ◌≡◌, refl, ◌≢◌, inl, inr, true, some, get_or, ltb, leb, holds_below,
  holds_below-at, arith, dec_lt, Bool-cases,
}
use sinux.Mm.Pages.{Pages}
use sinux.Mm.Slab.Heap.{Heap, sizes, class_from, size_match}

rising : holds_below 8 (λ k. holds_below k (λ j. ltb (get_or sizes j 0) (get_or sizes k 0))) ≡ true
unfolding holds_below
rising = refl

pub sizes_rise : (j k : ℕ) → j < k → k < 8 → get_or sizes j 0 < get_or sizes k 0
sizes_rise j k l h =
    let row =
      holds_below-at 8 (λ k. holds_below k (λ j. ltb (get_or sizes j 0) (get_or sizes k 0))) k
        rising h in
    ground (arith, holds_below-at k (λ j. ltb (get_or sizes j 0) (get_or sizes k 0)) j row l)

module _ (pages : Pages) (h : Heap pages) where
  abbrev size_of : ℕ → ℕ
  size_of i = (h.size_caches i).obj_size

  pub class_from_lem :
      (n i size top : ℕ)
      → i ≤ top
      → top < i + n
      → size ≤ size_of top
      → (k : ℕ) × (class_from pages n i size h ≡ some k)
        × (i ≤ k)
        × (k ≤ top)
        × (size ≤ size_of k)
        × ((j : ℕ) → i ≤ j → j < k → size_of j < size)
  unfolding class_from
  class_from_lem zero i size top a b fit = absurd (omega arith)
  class_from_lem (suc n) i size top a b fit = elim (Bool-cases (leb size (size_of i))) [
    | inl yes_fits ↦
        (i, rw yes_fits refl, omega arith, a, ground arith, λ j l m. absurd (omega arith))
    | inr too_small ↦
        let small : size_of i < size = ground arith in
        let ne : i ≢ top = λ e. absurd (omega (arith, rw (← e) at fit)) in
        let (k, e, l, m, f, first) =
          class_from_lem n (i + 1) size top (omega arith) (omega arith) fit in
        (
          k,
          rw (too_small, e) refl,
          omega arith,
          m,
          f,
          λ j x y. elim (dec_lt i j) [
            | yes b ↦ first j (omega arith) y
            | no b ↦ let at : j ≡ i = omega arith in rw at small
          ],
        )
  ]

  pub size_match_lem :
      (n i k : ℕ)
      → i ≤ k
      → k < i + n
      → ((j : ℕ) → i ≤ j → j < k → size_of j ≢ size_of k)
      → size_match pages n i (size_of k) h ≡ some k
  unfolding size_match
  size_match_lem zero i k a b other = absurd (omega arith)
  size_match_lem (suc n) i k a b other = elim (dec_lt i k) [
    | yes l ↦ ground (
      arith,
      other i,
      size_match_lem n (i + 1) k (omega arith) (omega arith) (λ j x y. other j (omega arith) y),
    )
    | no l ↦ let at : i ≡ k = omega arith in rw at (ground arith)
  ]
