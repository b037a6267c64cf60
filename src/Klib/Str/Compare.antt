-- ===== src/Klib/Str/Compare.antt =====
-- What `kstrlen`, `kstrcmp` and `kstrncmp` of lib/string.c compute of two strings.
use sinux.Prelude.{
  ℕ, zero, suc, ◌≤◌, ◌≡◌, refl, ◌≢◌, ◌↔◌, some, List, [], ◌∷◌, ◌++◌, arith, length, take, pos,
  sub_ℕ-eq-zero,
}
use sinux.Klib.Str.{kstrlen, kstrcmp, kstrncmp, size_max}

-- The bytes of a string before its NUL.
abbrev pub NonZero : List ℕ → Type 0
NonZero [] = Unit
NonZero (c ∷ cs) = (c ≢ 0) × NonZero cs

pub kstrlen_lem : (cs r : List ℕ) → NonZero cs → kstrlen (cs ++ 0 ∷ r) ≡ some (length cs)
unfolding kstrlen
kstrlen_lem [] r h = refl
kstrlen_lem (c ∷ cs) r h = ground (arith, kstrlen_lem cs r h.1)

pub kstrcmp-eq :
    (xs ys r t : List ℕ) → NonZero xs → xs ≡ ys → kstrcmp (xs ++ 0 ∷ r) (ys ++ 0 ∷ t) ≡ some (pos 0)
unfolding kstrcmp
kstrcmp-eq [] [] r t h e = refl
kstrcmp-eq [] (b ∷ ys) r t h e = cc
kstrcmp-eq (a ∷ xs) [] r t h e = cc
kstrcmp-eq (a ∷ xs) (b ∷ ys) r t h e = ground (arith, kstrcmp-eq xs ys r t h.1)

kstrcmp-zero :
    (xs ys r t : List ℕ)
    → NonZero xs
    → NonZero ys
    → kstrcmp (xs ++ 0 ∷ r) (ys ++ 0 ∷ t) ≡ some (pos 0)
    → xs ≡ ys
unfolding kstrcmp
kstrcmp-zero [] [] r t h k e = refl
kstrcmp-zero [] (b ∷ ys) r t h k e = ground arith
kstrcmp-zero (a ∷ xs) [] r t h k e = ground arith
kstrcmp-zero (a ∷ xs) (b ∷ ys) r t h k e =
    ground (arith, kstrcmp-zero xs ys r t h.1 k.1, sub_ℕ-eq-zero a b)

-- `kstrcmp` returns 0 exactly when the two strings hold the same bytes before their NUL, whatever
-- stands behind it.
pub kstrcmp_iff :
    (xs ys r t : List ℕ)
    → NonZero xs
    → NonZero ys
    → (kstrcmp (xs ++ 0 ∷ r) (ys ++ 0 ∷ t) ≡ some (pos 0)) ↔ (xs ≡ ys)
kstrcmp_iff xs ys r t h k = (kstrcmp-zero xs ys r t h k, kstrcmp-eq xs ys r t h)

pub kstrncmp-eq :
    (n : ℕ) (xs ys r t : List ℕ)
    → NonZero xs
    → take n xs ≡ take n ys
    → kstrncmp (xs ++ 0 ∷ r) (ys ++ 0 ∷ t) n ≡ some (pos 0)
unfolding kstrncmp
kstrncmp-eq zero xs ys r t h e = refl
kstrncmp-eq (suc n) [] [] r t h e = ground arith
kstrncmp-eq (suc n) [] (b ∷ ys) r t h e = cc
kstrncmp-eq (suc n) (a ∷ xs) [] r t h e = cc
kstrncmp-eq (suc n) (a ∷ xs) (b ∷ ys) r t h e = ground (arith, kstrncmp-eq n xs ys r t h.1)

kstrncmp-zero :
    (n : ℕ) (xs ys r t : List ℕ)
    → n ≤ size_max
    → NonZero xs
    → NonZero ys
    → kstrncmp (xs ++ 0 ∷ r) (ys ++ 0 ∷ t) n ≡ some (pos 0)
    → take n xs ≡ take n ys
unfolding kstrncmp
kstrncmp-zero zero xs ys r t m h k e = refl
kstrncmp-zero (suc n) [] [] r t m h k e = refl
kstrncmp-zero (suc n) [] (b ∷ ys) r t m h k e = ground arith
kstrncmp-zero (suc n) (a ∷ xs) [] r t m h k e = ground arith
kstrncmp-zero (suc n) (a ∷ xs) (b ∷ ys) r t m h k e =
    ground (arith, kstrncmp-zero n xs ys r t (omega arith) h.1 k.1, sub_ℕ-eq-zero a b)

-- For a `size_t` n, `kstrncmp` returns 0 exactly when the two strings agree in their first n
-- bytes, or to their end where that is earlier.
pub kstrncmp_iff :
    (n : ℕ) (xs ys r t : List ℕ)
    → n ≤ size_max
    → NonZero xs
    → NonZero ys
    → (kstrncmp (xs ++ 0 ∷ r) (ys ++ 0 ∷ t) n ≡ some (pos 0)) ↔ (take n xs ≡ take n ys)
kstrncmp_iff n xs ys r t m h k = (kstrncmp-zero n xs ys r t m h k, kstrncmp-eq n xs ys r t h)
