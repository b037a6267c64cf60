-- ===== src/Mm/Pmm/Alloc.antt =====
-- `pmm_alloc` of mm/pmm.c: first fit, and an exact count of the free pages.
use sinux.Prelude.{
  ℕ, zero, suc, ◌+◌, ◌*◌, ◌/◌, ◌%◌, ◌^◌, ◌≤◌, ◌<◌, ◌≡◌, refl, ◌≢◌, ◌⊎◌, inl, inr, true, false, not,
  ◌&&◌, ◌||◌, if◌then◌else◌, ltb, ◌==◌, Bool-cases, arith, dec_lt,
}
use sinux.Mm.Phys.{page_size, bit_test-set, bit_test-clear, bit_set-lt, bit_clear-lt}
use sinux.Mm.Pmm.{Pmm, bm_set, bm_clear, bm_test, take_page, alloc_from, pmm_alloc}

-- The bytes of memory are bytes.
abbrev pub Bytes : Pmm → Type 0
Bytes p = (a : ℕ) → p.mem a < 256

pub bm_test-set : (p : Pmm) (i j : ℕ) → Bytes p → bm_test (bm_set p i) j ≡ ((i == j) || bm_test p j)
unfolding bm_test bm_set
bm_test-set p i j h =
    ground (arith, bit_test-set (p.mem (p.bitmap + i / 8)) (i % 8) (j % 8) (h (p.bitmap + i / 8)))

pub bm_test-clear :
    (p : Pmm) (i j : ℕ) → Bytes p → bm_test (bm_clear p i) j ≡ (not (i == j) && bm_test p j)
unfolding bm_test bm_clear
bm_test-clear p i j h =
    ground (arith, bit_test-clear (p.mem (p.bitmap + i / 8)) (i % 8) (j % 8) (h (p.bitmap + i / 8)))

pub bm_set-Bytes : (p : Pmm) (i : ℕ) → Bytes p → Bytes (bm_set p i)
unfolding bm_set
bm_set-Bytes p i h a =
    ground (arith, h a, bit_set-lt (p.mem (p.bitmap + i / 8)) (i % 8) (h (p.bitmap + i / 8)))

pub bm_clear-Bytes : (p : Pmm) (i : ℕ) → Bytes p → Bytes (bm_clear p i)
unfolding bm_clear
bm_clear-Bytes p i h a =
    ground (arith, h a, bit_clear-lt (p.mem (p.bitmap + i / 8)) (i % 8) (h (p.bitmap + i / 8)))

-- How many of the first n pages are free.
unfoldable pub count_free : ℕ → Pmm → ℕ
count_free zero p = 0
count_free (suc n) p = count_free n p + (if bm_test p n then 0 else 1)

pub count_free-le : (n : ℕ) (p : Pmm) → count_free n p ≤ n
unfolding count_free
count_free-le zero p = omega arith
count_free-le (suc n) p = ground (arith, count_free-le n p)

-- Two bitmaps that differ at page i at most.
pub count_free-differ :
    (n i : ℕ) (p q : Pmm)
    → ((j : ℕ) → i ≢ j → bm_test q j ≡ bm_test p j)
    → bm_test p i ≡ false
    → bm_test q i ≡ true
    → count_free n q + (if ltb i n then 1 else 0) ≡ count_free n p
unfolding count_free
count_free-differ zero i p q same f t = ground arith
count_free-differ (suc n) i p q same f t =
    ground (arith, count_free-differ n i p q same f t, same n)

-- The count of free pages is exact, and all pages have a bit.
pub record IsValid (p : Pmm) : Type 0 where
  pub bytes : Bytes p
  pub counted : p.free_pages ≡ count_free p.total_pages p
  pub small : p.total_pages ≤ 2 ^ 24

pub count_free-pos : (n i : ℕ) (p : Pmm) → i < n → bm_test p i ≡ false → 0 < count_free n p
unfolding count_free
count_free-pos zero i p l f = absurd (omega arith)
count_free-pos (suc n) i p l f = elim (dec_lt i n) [
  | yes b ↦ omega (arith, count_free-pos n i p b f)
  | no b ↦ let e : i ≡ n = omega arith in rw (← e, f) (omega arith)
]

pub bm_test-take :
    (p : Pmm) (i j : ℕ) → Bytes p → bm_test (take_page p i) j ≡ ((i == j) || bm_test p j)
unfolding take_page bm_test
bm_test-take p i j h = unfold bm_test in bm_test-set p i j h

count_free-take :
    (p : Pmm) (i : ℕ)
    → Bytes p
    → i < p.total_pages
    → bm_test p i ≡ false
    → count_free p.total_pages (take_page p i) + 1 ≡ count_free p.total_pages p
count_free-take p i h l f = ground (
  arith,
  count_free-differ p.total_pages i p (take_page p i) (λ j ne. ground (arith, bm_test-take p i j h))
      f (ground (arith, bm_test-take p i i h)),
)

-- What taking page i does to the bitmap and to the count.
pub take_page-IsValid :
    (p : Pmm) (i : ℕ)
    → IsValid p
    → i < p.total_pages
    → bm_test p i ≡ false
    → IsValid (take_page p i) × ((take_page p i).free_pages + 1 ≡ p.free_pages)
unfolding take_page bm_set
take_page-IsValid p i v l f =
    let c = count_free-take p i v.bytes l f in
    let le = count_free-le p.total_pages p in
    let e = v.counted in
    (
      record {
        bytes = unfold bm_set in bm_set-Bytes p i v.bytes;
        counted = unfold take_page bm_set in omega arith;
        small = v.small;
      },
      omega arith,
    )

-- What the loop of `pmm_alloc` finds in the n pages from i on.
abbrev pub Searched : ℕ → ℕ → Pmm → ℕ × Pmm → Type 0
Searched i n p r =
    (((j : ℕ) → i ≤ j → j < i + n → bm_test p j ≡ true) × (r ≡ (0, p)))
    ⊎ ((k : ℕ) × (i ≤ k)
        × (k < i + n)
        × (bm_test p k ≡ false)
        × ((j : ℕ) → i ≤ j → j < k → bm_test p j ≡ true)
        × (r ≡ (k * page_size, take_page p k)))

alloc_from-Searched : (n i : ℕ) (p : Pmm) → Searched i n p (alloc_from n i p)
unfolding alloc_from
alloc_from-Searched zero i p = inl ((λ j a b. absurd (omega arith)), refl)
alloc_from-Searched (suc n) i p = elim (Bool-cases (bm_test p i)) [
  | inl used ↦ rw used (elim (alloc_from-Searched n (i + 1) p) [
    | inl (all, e) ↦ inl ((λ j a b. ground (arith, all j)), e)
    | inr (k, a, b, f, below, e) ↦
        inr (k, omega arith, omega arith, f, (λ j a b. ground (arith, below j)), e)
  ])
  | inr free ↦
      rw free (inr (i, omega arith, omega arith, free, (λ j a b. absurd (omega arith)), refl))
]

-- What a caller of `pmm_alloc` may rely on, where the first page is in use, as at boot.
pub record Allocated (p : Pmm) (k : ℕ) (r : ℕ × Pmm) : Type 0 where
  pub page : r.0 ≡ k * page_size
  pub state : r.1 ≡ take_page p k
  pub inside : k < p.total_pages
  pub was_free : bm_test p k ≡ false
  pub first : (j : ℕ) → j < k → bm_test p j ≡ true
  pub taken : (j : ℕ) → bm_test r.1 j ≡ ((k == j) || bm_test p j)
  pub fewer : r.1.free_pages + 1 ≡ p.free_pages
  pub valid : IsValid r.1
  pub total : r.1.total_pages ≡ p.total_pages

pub total-take : (p : Pmm) (i : ℕ) → (take_page p i).total_pages ≡ p.total_pages
unfolding take_page bm_set
total-take p i = refl

take_page-Allocated :
    (p : Pmm) (k : ℕ)
    → IsValid p
    → k < p.total_pages
    → bm_test p k ≡ false
    → ((j : ℕ) → j < k → bm_test p j ≡ true)
    → Allocated p k (k * page_size, take_page p k)
take_page-Allocated p k v l f below = record {
  page = refl;
  state = refl;
  inside = l;
  was_free = f;
  first = below;
  taken = λ j. bm_test-take p k j v.bytes;
  fewer = (take_page-IsValid p k v l f).1;
  valid = (take_page-IsValid p k v l f).0;
  total = total-take p k;
}

-- `pmm_alloc` of a valid allocator either finds every page in use, and then returns NULL and
-- changes nothing, or takes the lowest free page: it returns its address, marks that page and no
-- other, counts one free page less, and stays valid.
pub pmm_alloc_lem :
    (p : Pmm)
    → IsValid p
    → (((j : ℕ) → j < p.total_pages → bm_test p j ≡ true) × (pmm_alloc p ≡ (0, p)))
      ⊎ ((k : ℕ) × Allocated p k (pmm_alloc p))
unfolding pmm_alloc
pmm_alloc_lem p v = elim (alloc_from-Searched p.total_pages 0 p) [
  | inl (all, e) ↦ inl ((λ j l. all j (omega arith) (omega arith)), e)
  | inr (k, a, b, f, below, e) ↦
      inr (k, rw e (take_page-Allocated p k v (omega arith) f (λ j l. below j (omega arith) l)))
]
