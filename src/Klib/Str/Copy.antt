-- ===== src/Klib/Str/Copy.antt =====
-- What the copying functions of lib/string.c leave in the object that they write to.
use sinux.Prelude.{
  ℕ, zero, suc, ◌+◌, ◌-◌, ◌≤◌, ◌<◌, ◌≡◌, refl, none, some, List, [], ◌∷◌, ◌++◌, arith, length, drop,
  replicate,
}
use sinux.Klib.Str.{kstrncpy, kstrncat, kstrcpy, size_max, pad, cat_copy}
use sinux.Klib.Str.Compare.{NonZero}

kstrcpy_lem :
    (cs r d : List ℕ)
    → NonZero cs
    → length cs < length d
    → kstrcpy d (cs ++ 0 ∷ r) ≡ some (cs ++ 0 ∷ drop (suc (length cs)) d)
unfolding kstrcpy
kstrcpy_lem cs r [] h l = absurd (omega arith)
kstrcpy_lem [] r (x ∷ d) h l = refl
kstrcpy_lem (c ∷ cs) r (x ∷ d) h l = ground (arith, kstrcpy_lem cs r d h.1)

pad_lem : (n : ℕ) (d : List ℕ) → n ≤ length d → pad n d ≡ some (replicate n 0 ++ drop n d)
unfolding pad
pad_lem zero d l = refl
pad_lem (suc n) [] l = absurd (omega arith)
pad_lem (suc n) (x ∷ d) l = ground (arith, pad_lem n d)

pad-fault : (n : ℕ) (d : List ℕ) → length d < n → pad n d ≡ none
unfolding pad
pad-fault zero d l = absurd (omega arith)
pad-fault (suc n) [] l = refl
pad-fault (suc n) (x ∷ d) l = ground (arith, pad-fault n d)

-- A string shorter than n, copied by `kstrncpy` into an object of at least n bytes: the object
-- begins with the string, zeros follow up to n bytes, and the bytes behind are as before.
pub kstrncpy_fits :
    (n : ℕ) (cs r d : List ℕ)
    → NonZero cs
    → length cs < n
    → n ≤ length d
    → kstrncpy d (cs ++ 0 ∷ r) n ≡ some (cs ++ (replicate (n - length cs) 0 ++ drop n d))
unfolding kstrncpy
kstrncpy_fits zero cs r d h l m = absurd (omega arith)
kstrncpy_fits (suc n) cs r [] h l m = absurd (omega arith)
kstrncpy_fits (suc n) [] r (x ∷ d) h l m = ground (arith, pad_lem n d)
kstrncpy_fits (suc n) (c ∷ cs) r (x ∷ d) h l m = ground (arith, kstrncpy_fits n cs r d h.1)

-- A string of n bytes or more makes `kstrncpy` write outside the object: after the n bytes that it
-- should stop at, it goes on to write 2^64 - 1 zeros. No object of fewer bytes than that survives.
pub kstrncpy_overruns :
    (n : ℕ) (cs r d : List ℕ)
    → NonZero cs
    → n ≤ length cs
    → length d < n + size_max
    → kstrncpy d (cs ++ 0 ∷ r) n ≡ none
unfolding kstrncpy
kstrncpy_overruns zero cs r d h l m = pad-fault size_max d (omega arith)
kstrncpy_overruns (suc n) cs r [] h l m = refl
kstrncpy_overruns (suc n) [] r (x ∷ d) h l m = absurd (omega arith)
kstrncpy_overruns (suc n) (c ∷ cs) r (x ∷ d) h l m = ground (arith, kstrncpy_overruns n cs r d h.1)

cat_copy_lem :
    (n : ℕ) (cs r d : List ℕ)
    → NonZero cs
    → length cs < n
    → length cs + 2 ≤ length d
    → cat_copy d (cs ++ 0 ∷ r) n ≡ some (cs ++ 0 ∷ 0 ∷ drop (length cs + 2) d)
unfolding cat_copy
cat_copy_lem zero cs r d h l m = absurd (omega arith)
cat_copy_lem (suc n) cs r [] h l m = absurd (omega arith)
cat_copy_lem (suc n) [] r (x ∷ []) h l m = absurd (omega arith)
cat_copy_lem (suc n) [] r (x ∷ y ∷ d) h l m = refl
cat_copy_lem (suc n) (c ∷ cs) r (x ∷ d) h l m = ground (arith, cat_copy_lem n cs r d h.1)

-- `kstrncat` of a string of fewer than n bytes appends it, and then writes two NULs: the object
-- needs one byte more than the joined string and its NUL.
pub kstrncat_lem :
    (n : ℕ) (xs cs q r : List ℕ)
    → NonZero xs
    → NonZero cs
    → length cs < n
    → length cs + 1 ≤ length q
    → kstrncat (xs ++ 0 ∷ q) (cs ++ 0 ∷ r) n ≡ some (xs ++ (cs ++ 0 ∷ 0 ∷ drop (length cs + 1) q))
unfolding kstrncat
kstrncat_lem n [] cs q r h k l m = ground (arith, cat_copy_lem n cs r (0 ∷ q) k)
kstrncat_lem n (a ∷ xs) cs q r h k l m = ground (arith, kstrncat_lem n xs cs q r h.1 k)
