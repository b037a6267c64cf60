-- ===== src/Mm/Slab/Bits.antt =====
-- mm/slab.c: the bitmap of a slab, and how many objects fit into its page.
use native.Mathlib.Nat.{div-mul-le_self}
use sinux.Prelude.{
  ℕ, zero, suc, ◌+◌, ◌*◌, ◌/◌, ◌%◌, ◌≤◌, ◌<◌, ◌≡◌, refl, ◌≢◌, inl, inr, true, false, not, ◌&&◌,
  ◌||◌, Option, none, some, if◌then◌else◌, ltb, ◌==◌, arith, dec_lt, Bool-cases,
}
use sinux.Mm.Slab.{
  Bitmap, bitmap_set, bitmap_clear, bitmap_test, find_clear, bitmap_find_free, capacity,
}

same_bit : (i j : ℕ) → (j / 64 == i / 64 && j % 64 == i % 64) ≡ (i == j)
same_bit i j = ground arith

pub bitmap_test-set :
    (bm : Bitmap) (i j : ℕ) → bitmap_test (bitmap_set bm i) j ≡ ((i == j) || bitmap_test bm j)
unfolding bitmap_test bitmap_set
bitmap_test-set bm i j = rw (same_bit i j) refl

pub bitmap_test-clear :
    (bm : Bitmap) (i j : ℕ) → bitmap_test (bitmap_clear bm i) j ≡ (not (i == j) && bitmap_test bm j)
unfolding bitmap_test bitmap_clear
bitmap_test-clear bm i j = rw (same_bit i j) refl

-- How many of the first n bits are 0.
unfoldable pub count_clear : ℕ → Bitmap → ℕ
count_clear zero bm = 0
count_clear (suc n) bm = count_clear n bm + (if bitmap_test bm n then 0 else 1)

pub count_clear-le : (n : ℕ) (bm : Bitmap) → count_clear n bm ≤ n
unfolding count_clear
count_clear-le zero bm = omega arith
count_clear-le (suc n) bm = ground (arith, count_clear-le n bm)

-- Two bitmaps that differ at bit i alone.
count_clear-differ :
    (n i : ℕ) (a b : Bitmap)
    → ((j : ℕ) → i ≢ j → bitmap_test b j ≡ bitmap_test a j)
    → bitmap_test a i ≡ false
    → bitmap_test b i ≡ true
    → count_clear n b + (if ltb i n then 1 else 0) ≡ count_clear n a
unfolding count_clear
count_clear-differ zero i a b same f t = ground arith
count_clear-differ (suc n) i a b same f t =
    ground (arith, count_clear-differ n i a b same f t, same n)

pub count_clear-set :
    (n i : ℕ) (bm : Bitmap)
    → i < n
    → bitmap_test bm i ≡ false
    → count_clear n (bitmap_set bm i) + 1 ≡ count_clear n bm
count_clear-set n i bm l f = ground (
  arith,
  count_clear-differ n i bm (bitmap_set bm i) (λ j ne. ground (arith, bitmap_test-set bm i j)) f
      (ground (arith, bitmap_test-set bm i i)),
)

pub count_clear-clear :
    (n i : ℕ) (bm : Bitmap)
    → i < n
    → bitmap_test bm i ≡ true
    → count_clear n (bitmap_clear bm i) ≡ count_clear n bm + 1
count_clear-clear n i bm l t = ground (
  arith,
  count_clear-differ n i (bitmap_clear bm i) bm (λ j ne. ground (arith, bitmap_test-clear bm i j))
      (ground (arith, bitmap_test-clear bm i i)) t,
)

pub count_clear_none : (n : ℕ) → count_clear n (λ w b. false) ≡ n
unfolding count_clear bitmap_test
count_clear_none zero = refl
count_clear_none (suc n) = omega (arith, count_clear_none n)

pub count_clear-pos :
    (n i : ℕ) (bm : Bitmap) → i < n → bitmap_test bm i ≡ false → 0 < count_clear n bm
unfolding count_clear
count_clear-pos zero i bm l f = absurd (omega arith)
count_clear-pos (suc n) i bm l f = elim (dec_lt i n) [
  | yes b ↦ omega (arith, count_clear-pos n i bm b f)
  | no b ↦ let e : i ≡ n = omega arith in rw (← e, f) (omega arith)
]

-- The search from i, over n bits, finds the first 0, or there is none.
record Found (bm : Bitmap) (from to : ℕ) (r : Option ℕ) : Type 0 where
  pub at : (i : ℕ) → r ≡ some i → (i < to) × (bitmap_test bm i ≡ false)
  pub none_clear : r ≡ none → (j : ℕ) → from ≤ j → j < to → bitmap_test bm j ≡ true

find_clear-Found : (n i : ℕ) (bm : Bitmap) → Found bm i (i + n) (find_clear n i bm)
unfolding find_clear
find_clear-Found zero i bm = record {
  at = λ k e. absurd (cc);
  none_clear = λ e j l h. absurd (omega arith);
}
find_clear-Found (suc n) i bm =
    let rest = find_clear-Found n (i + 1) bm in
    elim (Bool-cases (bitmap_test bm i)) [
      | inl t ↦ rw t (record {
        at = λ k e. ground (arith, rest.at k e);
        none_clear = λ e j l h. elim (dec_lt i j) [
          | yes b ↦ rest.none_clear e j (omega arith) (omega arith)
          | no b ↦ let q : j ≡ i = omega arith in rw q t
        ];
      })
      | inr f ↦ rw f (record { at = λ k e. ground arith; none_clear = λ e. absurd (cc) })
    ]

-- Where all the bits are counted, each is 0.
pub all_clear : (n i : ℕ) (bm : Bitmap) → count_clear n bm ≡ n → i < n → bitmap_test bm i ≡ false
unfolding count_clear
all_clear zero i bm e l = absurd (omega arith)
all_clear (suc n) i bm e l = elim (dec_lt i n) [
  | yes b ↦ all_clear n i bm (ground (arith, count_clear-le n bm)) b
  | no b ↦ let at : i ≡ n = omega arith in rw at (ground (arith, count_clear-le n bm))
]

all_set : (n : ℕ) (bm : Bitmap) → ((j : ℕ) → j < n → bitmap_test bm j ≡ true) → count_clear n bm ≡ 0
unfolding count_clear
all_set zero bm h = refl
all_set (suc n) bm h = ground (arith, all_set n bm (λ j l. h j (omega arith)), h n (omega arith))

-- A bitmap with a 0 has one that the search finds.
pub bitmap_find_free_lem :
    (max : ℕ) (bm : Bitmap)
    → 0 < count_clear max bm
    → (i : ℕ) × (bitmap_find_free bm max ≡ some i) × (i < max) × (bitmap_test bm i ≡ false)
bitmap_find_free_lem max bm h = pick (bitmap_find_free bm max) refl
  where
    found : Found bm 0 (0 + max) (bitmap_find_free bm max)
    found = unfold bitmap_find_free in find_clear-Found max 0 bm

    pick :
        (r : Option ℕ)
        → bitmap_find_free bm max ≡ r
        → (i : ℕ) × (bitmap_find_free bm max ≡ some i) × (i < max) × (bitmap_test bm i ≡ false)
    pick none e =
        absurd
          (omega (arith, all_set max bm (λ j l. found.none_clear e j (omega arith) (omega arith))))
    pick (some i) e = let (l, f) = found.at i e in (i, e, omega arith, f)

-- What a page of 4096 bytes holds: at least one object, and none beyond the page.
pub capacity_bounds :
    (size : ℕ)
    → 0 < size
    → size ≤ 4040
    → (0 < capacity size) × (capacity size ≤ 256) × (capacity size * size ≤ 4040)
unfolding capacity
capacity_bounds size pos small = grind (arith, div-mul-le_self)
