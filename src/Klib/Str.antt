-- ===== src/Klib/Str.antt =====
-- lib/string.c. A pointer is the list of the bytes from it to the end of its object, a string is
-- such a list with a NUL in it, and `none` is an access outside the object. A function that
-- writes through its argument returns the object's new bytes.
pub mod Compare
pub mod Copy
use mathlib.Core.Option
use sinux.Prelude.{
  ℕ, zero, suc, ◌-◌, ◌^◌, Bool, not, ◌&&◌, Option, none, some, List, [], ◌∷◌, if◌then◌else◌, ◌==◌,
  ℤ, pos, sub_ℕ,
}

-- `(size_t)-1`, what `n--` leaves at n = 0
abbrev pub size_max : ℕ
size_max = 2 ^ 64 - 1

pub kmemset : List ℕ → ℕ → ℕ → Option (List ℕ)
kmemset b v zero = some b
kmemset [] v (suc n) = none
kmemset (_ ∷ b) v (suc n) = Option.map (λ r. v ∷ r) (kmemset b v n)

pub kmemcpy : List ℕ → List ℕ → ℕ → Option (List ℕ)
kmemcpy d s zero = some d
kmemcpy [] s (suc n) = none
kmemcpy (_ ∷ d) [] (suc n) = none
kmemcpy (_ ∷ d) (c ∷ s) (suc n) = Option.map (λ r. c ∷ r) (kmemcpy d s n)

unfoldable pub kstrlen : List ℕ → Option ℕ
kstrlen [] = none
kstrlen (c ∷ s) = if c == 0 then some 0 else Option.map suc (kstrlen s)

unfoldable pub kstrcmp : List ℕ → List ℕ → Option ℤ
kstrcmp [] b = none
kstrcmp (x ∷ a) [] = none
kstrcmp (x ∷ a) (y ∷ b) = if not (x == 0) && x == y then kstrcmp a b else some (sub_ℕ x y)

-- The loop ends by `n--` at 0, and then n is `size_max`, or by its other tests, and then the test
-- of n against `size_max` is made at n - 1.
unfoldable pub kstrncmp : List ℕ → List ℕ → ℕ → Option ℤ
kstrncmp a b zero = some (pos 0)
kstrncmp [] b (suc n) = none
kstrncmp (x ∷ a) [] (suc n) = none
kstrncmp (x ∷ a) (y ∷ b) (suc n) =
    if not (x == 0) && x == y
    then kstrncmp a b n
    else if n == size_max
    then some (pos 0)
    else some (sub_ℕ x y)

unfoldable pub kstrcpy : List ℕ → List ℕ → Option (List ℕ)
kstrcpy [] s = none
kstrcpy (_ ∷ d) [] = none
kstrcpy (_ ∷ d) (c ∷ s) = if c == 0 then some (0 ∷ d) else Option.map (λ r. c ∷ r) (kstrcpy d s)

-- `while (n--) *dst++ = 0;`
pad : ℕ → List ℕ → Option (List ℕ)
pad zero d = some d
pad (suc n) [] = none
pad (suc n) (_ ∷ d) = Option.map (λ r. 0 ∷ r) (pad n d)

-- When the first loop ends by its count, the second starts from `size_max`.
unfoldable pub kstrncpy : List ℕ → List ℕ → ℕ → Option (List ℕ)
unfolding pad
kstrncpy d s zero = pad size_max d
kstrncpy [] s (suc n) = none
kstrncpy (_ ∷ d) [] (suc n) = none
kstrncpy (_ ∷ d) (c ∷ s) (suc n) =
    let rest = kstrncpy d s n in Option.map (λ r. c ∷ r) (if c == 0 then pad n d else rest)

-- `*dst = '\0'`
end_string : List ℕ → Option (List ℕ)
end_string [] = none
end_string (_ ∷ d) = some (0 ∷ d)

-- The copying loop of `kstrncat`, and the write behind it.
cat_copy : List ℕ → List ℕ → ℕ → Option (List ℕ)
unfolding end_string
cat_copy d s zero = end_string d
cat_copy [] s (suc n) = none
cat_copy (_ ∷ d) [] (suc n) = none
cat_copy (_ ∷ d) (c ∷ s) (suc n) =
    let rest = cat_copy d s n in Option.map (λ r. c ∷ r) (if c == 0 then end_string d else rest)

unfoldable pub kstrncat : List ℕ → List ℕ → ℕ → Option (List ℕ)
unfolding cat_copy
kstrncat [] s n = none
kstrncat (c ∷ d) s n =
    let rest = kstrncat d s n in
    if c == 0 then cat_copy (c ∷ d) s n else Option.map (λ r. c ∷ r) rest
