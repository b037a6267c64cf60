-- ===== src/Mm/Vmm/Destroy/Reach.antt =====
-- What nested loops over page tables come to, in mm/vmm.c. What an entry leads to is its word without the
-- low 12 bits, which is a page's address where bit 63 is 0.
use mathlib.Core.Path.{subst}
use sinux.Prelude.{
  ℕ_discrete, ℕ, zero, suc, ◌+◌, ◌*◌, ◌<◌, ◌≤◌, ◌≡◌, sym, ◌↔◌, ◌⊎◌, inl, inr, true, List, [], ◌∷◌,
  ◌++◌, if◌then◌else◌, arith, Bool-cases,
}
use sinux.Mm.Phys.{page_down}
use sinux.Mm.Vmm.{present}

-- The pages that a walk over n entries of table t from i on comes to, f for what each leads to.
unfoldable pub listed : (ℕ → List ℕ) → ℕ → ℕ → ℕ → (ℕ → ℕ) → List ℕ
listed f zero i t w = []
listed f (suc n) i t w =
    let rest = listed f n (i + 1) t w in
    let e = w (t + 8 * i) in if present e then f (page_down e) ++ rest else rest

-- What a tree of k levels below the page t holds, the page itself last.
unfoldable pub freed : ℕ → ℕ → (ℕ → ℕ) → List ℕ
unfolding listed
freed zero t w = t ∷ []
freed (suc k) t w = listed (λ p. freed k p w) 512 0 t w ++ (t ∷ [])

-- x stands in the list.
abbrev pub In : ℕ → List ℕ → Type 0
In x [] = ⊥
In x (y ∷ l) = (x ≡ y) ⊎ In x l

pub In-++_left : (x : ℕ) (l r : List ℕ) → In x l → In x (l ++ r)
In-++_left x [] r m = absurd m
In-++_left x (y ∷ l) r (inl e) = inl e
In-++_left x (y ∷ l) r (inr m) = inr (In-++_left x l r m)

pub In-++_right : (x : ℕ) (l r : List ℕ) → In x r → In x (l ++ r)
In-++_right x [] r m = m
In-++_right x (y ∷ l) r m = inr (In-++_right x l r m)

pub In-++ : (x : ℕ) (l r : List ℕ) → In x (l ++ r) → In x l ⊎ In x r
In-++ x [] r m = inr m
In-++ x (y ∷ l) r (inl e) = inl (inl e)
In-++ x (y ∷ l) r (inr m) = elim (In-++ x l r m) [ inl a ↦ inl (inr a) | inr b ↦ inr b ]

-- Page x is t, or a page below it in a tree of k levels.
abbrev pub Within : ℕ → ℕ → ℕ → (ℕ → ℕ) → Type 0
Within zero t x w = x ≡ t
Within (suc k) t x w =
    (x ≡ t)
    ⊎ ((i : ℕ) × (i < 512)
        × (present (w (t + 8 * i)) ≡ true)
        × Within k (page_down (w (t + 8 * i))) x w)

-- An entry of t, from i on, that leads to a page of f.
abbrev pub Through : (ℕ → List ℕ) → ℕ → ℕ → ℕ → ℕ → (ℕ → ℕ) → Type 0
Through f n i t x w =
    (j : ℕ) × (i ≤ j)
    × (j < i + n)
    × (present (w (t + 8 * j)) ≡ true)
    × In x (f (page_down (w (t + 8 * j))))

later_Through :
    (f : ℕ → List ℕ) (n i t x : ℕ) (w : ℕ → ℕ)
    → Through f n (i + 1) t x w
    → Through f (suc n) i t x w
later_Through f n i t x w (j, a, b, e, m) = (j, omega arith, omega arith, e, m)

pub listed-Through :
    (f : ℕ → List ℕ) (n i t x : ℕ) (w : ℕ → ℕ) → In x (listed f n i t w) → Through f n i t x w
unfolding listed
listed-Through f zero i t x w m = absurd (m)
listed-Through f (suc n) i t x w m = elim (Bool-cases (present (w (t + 8 * i)))) [
  | inl e ↦ elim (In-++ x (f (page_down (w (t + 8 * i)))) (listed f n (i + 1) t w) (rw e at m)) [
    | inl here ↦ (i, omega arith, omega arith, e, here)
    | inr later ↦ later_Through f n i t x w (listed-Through f n (i + 1) t x w later)
  ]
  | inr e ↦ later_Through f n i t x w (listed-Through f n (i + 1) t x w (rw e at m))
]

here_listed :
    (f : ℕ → List ℕ) (n i t x : ℕ) (w : ℕ → ℕ)
    → present (w (t + 8 * i)) ≡ true
    → In x (f (page_down (w (t + 8 * i))))
    → In x (listed f (suc n) i t w)
unfolding listed
here_listed f n i t x w e m = rw e (In-++_left x _ (listed f n (i + 1) t w) m)

later_listed :
    (f : ℕ → List ℕ) (n i t x : ℕ) (w : ℕ → ℕ)
    → In x (listed f n (i + 1) t w)
    → In x (listed f (suc n) i t w)
unfolding listed
later_listed f n i t x w m = elim (Bool-cases (present (w (t + 8 * i)))) [
  | inl e ↦ rw e (In-++_right x (f (page_down (w (t + 8 * i)))) _ m)
  | inr e ↦ rw e m
]

pub Through-listed :
    (f : ℕ → List ℕ) (n i t x : ℕ) (w : ℕ → ℕ) → Through f n i t x w → In x (listed f n i t w)
Through-listed f zero i t x w (j, a, b, e, m) = absurd (omega arith)
Through-listed f (suc n) i t x w (j, a, b, e, m) = elim (ℕ_discrete j i) [
  | yes q ↦ here_listed f n i t x w (rw q at e) (rw q at m)
  | no ne ↦
      later_listed f n i t x w
        (Through-listed f n (i + 1) t x w (j, omega arith, omega arith, e, m))
]

pub Within-next :
    (k t i p x : ℕ) (w : ℕ → ℕ)
    → i < 512
    → present (w (t + 8 * i)) ≡ true
    → page_down (w (t + 8 * i)) ≡ p
    → Within k p x w
    → Within (suc k) t x w
Within-next k t i p x w b e at below = inr (i, b, e, subst (λ q. Within k q x w) (sym at) below)

-- The numbers listed are those of the tree.
pub freed_iff : (k t x : ℕ) (w : ℕ → ℕ) → In x (freed k t w) ↔ Within k t x w
unfolding freed
freed_iff zero t x w = ((λ m. elim m [ inl e ↦ e | inr z ↦ absurd z ]), λ e. inl e)
freed_iff (suc k) t x w =
    let f : ℕ → List ℕ = λ p. freed k p w in
    (
      (λ m. elim (In-++ x (listed f 512 0 t w) (t ∷ []) m) [
        | inl m ↦
            let (j, a, b, e, below) = listed-Through f 512 0 t x w m in
            inr (j, omega arith, e, (freed_iff k _ x w).0 below)
        | inr m ↦ elim m [ inl e ↦ inl e | inr z ↦ absurd z ]
      ]),
      (λ h. elim h [
        | inl e ↦ In-++_right x (listed f 512 0 t w) (t ∷ []) (inl e)
        | inr (j, b, e, below) ↦ In-++_left x (listed f 512 0 t w) (t ∷ []) (
            Through-listed f 512 0 t x w
              (j, omega arith, omega arith, e, (freed_iff k _ x w).1 below))
      ]),
    )
