-- ===== src/Smp/Lock/Count.antt =====
-- How many of the first n processors pass a test.
use sinux.Prelude.{
  ℕ, zero, suc, ◌+◌, ◌≤◌, ◌<◌, ◌≡◌, refl, ◌≢◌, inl, inr, Bool-cases, Bool, false, if◌then◌else◌,
  ◌==◌, arith,
}

unfoldable pub count : ℕ → (ℕ → Bool) → ℕ
count zero f = 0
count (suc n) f = count n f + (if f n then 1 else 0)

pub count-same : (n : ℕ) (f g : ℕ → Bool) → ((j : ℕ) → j < n → f j ≡ g j) → count n f ≡ count n g
unfolding count
count-same zero f g h = refl
count-same (suc n) f g h =
    let rest = count-same n f g (λ j l. h j (omega arith)) in
    let last = h n (omega arith) in ground (arith, rest, last)

-- Two tests that differ at i at most.
pub count-differ :
    (n i : ℕ) (f g : ℕ → Bool)
    → i < n
    → ((j : ℕ) → i ≢ j → f j ≡ g j)
    → count n f + (if g i then 1 else 0) ≡ count n g + (if f i then 1 else 0)
unfolding count
count-differ zero i f g l h = absurd (omega arith)
count-differ (suc n) i f g l h = elim (Bool-cases (i == n)) [
  | inl e ↦
      let same = count-same n f g (λ j b. h j (ground arith)) in
      let q : i ≡ n = ground arith in rw (q, same) (omega arith)
  | inr ne ↦
      let rest = count-differ n i f g (ground arith) h in
      let last = h n (ground arith) in rw last (omega (arith, rest))
]

pub count-le : (n : ℕ) (f : ℕ → Bool) → count n f ≤ n
unfolding count
count-le zero f = omega arith
count-le (suc n) f = ground (arith, count-le n f)

pub count-zero : (n i : ℕ) (f : ℕ → Bool) → i < n → count n f ≡ 0 → f i ≡ false
unfolding count
count-zero zero i f l e = absurd (omega arith)
count-zero (suc n) i f l e = elim (Bool-cases (i == n)) [
  | inl q ↦ let q' : i ≡ n = ground arith in rw q' (ground arith)
  | inr ne ↦ count-zero n i f (ground arith) (ground arith)
]
