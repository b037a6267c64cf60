-- ===== src/Mm/Slab/Chain.antt =====
-- mm/slab.c: the lists of slabs, linked through their headers, and the removal of one.
use mathlib.Core.Path.{subst}
use sinux.Prelude.{
  ℕ, zero, suc, ◌+◌, ◌≤◌, ◌<◌, ◌≡◌, refl, sym, ◌∙◌, ◌≢◌, inl, inr, false, some, List, [], ◌∷◌, ◌++◌,
  length, if◌then◌else◌, ◌==◌, arith, neq_false, ==_iff, Bool-cases,
}
use sinux.Mm.Pages.{Pages}
use sinux.Mm.Slab.{Slabs, next_of, set_next, find_prev, unlink}

abbrev pub Chain : (ℕ → ℕ) → ℕ → List ℕ → Type 0
Chain next a [] = a ≡ 0
Chain next a (p ∷ ps) = (a ≡ p) × (p ≢ 0) × Chain next (next p) ps

abbrev pub count : ℕ → List ℕ → ℕ
count q [] = 0
count q (p ∷ ps) = (if p == q then 1 else 0) + count q ps

pub count-append : (q : ℕ) (xs ys : List ℕ) → count q (xs ++ ys) ≡ count q xs + count q ys
count-append q [] ys = omega arith
count-append q (x ∷ xs) ys = omega (arith, count-append q xs ys)

pub Chain-frame :
    (f g : ℕ → ℕ) (a : ℕ) (ps : List ℕ)
    → Chain f a ps
    → ((q : ℕ) → 0 < count q ps → g q ≡ f q)
    → Chain g a ps
Chain-frame f g a [] c same = c
Chain-frame f g a (p ∷ ps) (e, ne, c) same =
    let at : g p ≡ f p = same p (ground arith) in
    (e, ne, rw at (Chain-frame f g (f p) ps c (λ q h. same q (omega arith))))

pub Chain-cons :
    (next : ℕ → ℕ) (b p : ℕ) (ps : List ℕ)
    → p ≢ 0
    → next p ≡ b
    → Chain next b ps
    → Chain next p (p ∷ ps)
Chain-cons next b p ps ne e c = (refl, ne, subst (λ a. Chain next a ps) (sym e) c)

pub Chain-ne_zero :
    (next : ℕ → ℕ) (a : ℕ) (ps : List ℕ) (q : ℕ) → Chain next a ps → 0 < count q ps → q ≢ 0
Chain-ne_zero next a [] q c h = absurd (omega arith)
Chain-ne_zero next a (p ∷ ps) q (e, ne, c) h = elim (Bool-cases (p == q)) [
  | inl e ↦ λ z. ne ((==_iff p q).0 e ∙ z)
  | inr e ↦ Chain-ne_zero next (next p) ps q c (ground arith)
]

-- A member of a list, and what stands before and behind it.
pub split_at :
    (q : ℕ) (ps : List ℕ)
    → 0 < count q ps
    → (before : List ℕ) × (behind : List ℕ) × (ps ≡ before ++ (q ∷ behind)) × (count q before ≡ 0)
split_at q [] h = absurd (omega arith)
split_at q (p ∷ ps) h = elim (Bool-cases (p == q)) [
  | inl e ↦ let at : p ≡ q = (==_iff p q).0 e in ([], ps, rw at refl, refl)
  | inr e ↦
      let (before, behind, at, none_before) = split_at q ps (ground arith) in
      (p ∷ before, behind, rw at refl, ground arith)
]

module _ (pages : Pages) where
  pub next-set_next :
      (p v q : ℕ) (s : Slabs pages)
      → next_of pages (set_next pages p v s) q ≡ (if p == q then v else next_of pages s q)
  next-set_next p v q s = ground arith

  next-set_next_self : (p v : ℕ) (s : Slabs pages) → next_of pages (set_next pages p v s) p ≡ v
  next-set_next_self p v s = ground arith

  -- The two states differ in the links alone.
  pub record Relinked (s t : Slabs pages) : Type 0 where
    pub at : (q : ℕ) → t.headers q ≡ record (s.headers q) { next = next_of pages t q }
    pub kept : t.free_pages ≡ s.free_pages

  pub set_next-Relinked : (p v : ℕ) (s : Slabs pages) → Relinked s (set_next pages p v s)
  set_next-Relinked p v s = record { at = λ q. ground arith; kept = refl }

  pub same_header :
      (s t : Slabs pages) (p : ℕ)
      → Relinked s t
      → next_of pages t p ≡ next_of pages s p
      → t.headers p ≡ s.headers p
  same_header s t p r e = r.at p ∙ rw e refl

  pub Relinked-trans : (s t u : Slabs pages) → Relinked s t → Relinked t u → Relinked s u
  Relinked-trans s t u a b = record {
    at = λ q. rw (b.at q) (ground (arith, a.at q));
    kept = b.kept ∙ a.kept;
  }

  -- Where the search ends, and that the link written there joins the list again.
  record Joined (s : Slabs pages) (slab head : ℕ) (xs ys : List ℕ) (prev : ℕ) : Type 0 where
    pub inside : 0 < count prev xs
    pub nonzero : prev ≢ 0
    pub chain : Chain (next_of pages (set_next pages prev (next_of pages s slab) s)) head (xs ++ ys)

  cons-Joined :
      (s : Slabs pages) (slab x z : ℕ) (xs ys : List ℕ) (prev : ℕ)
      → next_of pages s x ≡ z
      → x ≢ 0
      → (prev == x) ≡ false
      → Joined s slab z (z ∷ xs) ys prev
      → Joined s slab x (x ∷ (z ∷ xs)) ys prev
  cons-Joined s slab x z xs ys prev at ne far j = record {
    inside = omega (arith, j.inside);
    nonzero = j.nonzero;
    chain = (
      refl,
      ne,
      subst
          (λ a.
            Chain (next_of pages (set_next pages prev (next_of pages s slab) s)) a ((z ∷ xs) ++ ys))
          (sym (ground (arith, at, far))) j.chain,
    );
  }

  find_prev-Joined :
      (fuel slab x : ℕ) (s : Slabs pages) (xs ys : List ℕ)
      → Chain (next_of pages s) x (x ∷ (xs ++ (slab ∷ ys)))
      → ((q : ℕ) → count q (x ∷ (xs ++ (slab ∷ ys))) ≤ 1)
      → length xs < fuel
      → (prev : ℕ) × (find_prev pages fuel slab x s ≡ some prev) × Joined s slab x (x ∷ xs) ys prev
  unfolding find_prev
  find_prev-Joined zero slab x s xs ys c once h = absurd (omega arith)
  find_prev-Joined (suc fuel) slab x s [] ys (e, ne, (at, nz, c)) once h = (
    x,
    ground arith,
    record {
      inside = ground arith;
      nonzero = ne;
      chain = (
        refl,
        ne,
        subst (λ a. Chain (next_of pages (set_next pages x (next_of pages s slab) s)) a ys)
            (sym (next-set_next_self x (next_of pages s slab) s))
            (Chain-frame (next_of pages s) _ (next_of pages s slab) ys c
              (λ q m. ground (arith, once q))),
      );
    },
  )
  find_prev-Joined (suc fuel) slab x s (z ∷ xs) ys (e, ne, (at, nz, c)) once h =
      let (prev, found, j) =
        find_prev-Joined fuel slab z s xs ys (refl, nz, c) (λ q. ground (arith, once q))
          (omega arith) in
      let apart : (x == slab) ≡ false = ground (arith, once x, count-append x xs (slab ∷ ys)) in
      let other : (z == slab) ≡ false = ground (arith, once z, count-append z xs (slab ∷ ys)) in
      let far : (prev == x) ≡ false =
        ground (arith, once x, count-append x xs (slab ∷ ys), j.inside) in
      (prev, ground (arith, found), cons-Joined s slab x z xs ys prev at ne far j)

  pub record Unlinked (s : Slabs pages) (slab : ℕ) (xs ys : List ℕ) (r : ℕ × Slabs pages)
      : Type 0 where
    pub relinked : Relinked s r.1
    pub chain : Chain (next_of pages r.1) r.0 (xs ++ ys)
    pub others : (q : ℕ) → count q xs ≡ 0 → next_of pages r.1 q ≡ next_of pages s q

  -- A slab of a list that holds it once leaves it, and no other is lost.
  pub unlink-Unlinked :
      (fuel slab head : ℕ) (s : Slabs pages) (xs ys : List ℕ)
      → Chain (next_of pages s) head (xs ++ (slab ∷ ys))
      → ((q : ℕ) → count q (xs ++ (slab ∷ ys)) ≤ 1)
      → length xs ≤ fuel
      → (r : ℕ × Slabs pages) × (unlink pages fuel slab head s ≡ some r) × Unlinked s slab xs ys r
  unfolding unlink
  unlink-Unlinked fuel slab head s [] ys (e, ne, c) once h = (
    (next_of pages s slab, s),
    ground arith,
    record { relinked = record { at = λ q. refl; kept = refl }; chain = c; others = λ q m. refl },
  )
  unlink-Unlinked fuel slab head s (x ∷ xs) ys (e, ne, c) once h =
      let (prev, found, j) =
        find_prev-Joined fuel slab x s xs ys (refl, ne, c) once (omega arith) in
      let apart : (x == slab) ≡ false = ground (arith, once x, count-append x xs (slab ∷ ys)) in
      let go : (prev == 0) ≡ false = neq_false prev 0 j.nonzero in
      (
        (head, set_next pages prev (next_of pages s slab) s),
        ground (arith, found),
        record {
          relinked = set_next-Relinked prev (next_of pages s slab) s;
          chain = rw e j.chain;
          others = λ q m. ground (arith, j.inside);
        },
      )
