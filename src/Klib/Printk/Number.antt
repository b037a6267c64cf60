-- ===== src/Klib/Printk/Number.antt =====
-- The digits that lib/printk.c prints are those of the number.
use sinux.Prelude.{
  ℕ, zero, suc, ◌+◌, ◌-◌, ◌*◌, ◌/◌, ◌%◌, ◌^◌, ◌<◌, ◌≤◌, ◌≡◌, refl, ◌⊎◌, inl, inr, Bool, List, [],
  ◌∷◌, ◌++◌, if◌then◌else◌, ltb, ◌==◌, length, replicate, Bool-cases, arith, dec_le,
}
use sinux.Klib.Printk.{digit, digits_from, digits_of, print_uint}

abbrev pub IsBase : ℕ → Type 0
IsBase b = (b ≡ 10) ⊎ (b ≡ 16)

-- A digit's value, upper case or lower.
abbrev pub digit_value : ℕ → ℕ
digit_value c = if ltb c 58 then c - 48 else if ltb c 71 then c - 55 else c - 87

-- The number that digits stand for, behind those that stand for n.
abbrev pub read_from : ℕ → ℕ → List ℕ → ℕ
read_from base n [] = n
read_from base n (c ∷ l) = read_from base (n * base + digit_value c) l

digit_value-digit : (upper : Bool) (n : ℕ) → n < 16 → digit_value (digit upper n) ≡ n
unfolding digit
digit_value-digit upper n h = ground arith

split : (b v : ℕ) → IsBase b → (v / b * b + v % b ≡ v) × (v % b < 16) × (v / b ≤ v / 2)
split b v (inl e) = rw e (omega arith, omega arith, omega arith)
split b v (inr e) = rw e (omega arith, omega arith, omega arith)

digits_from-read :
    (f v b : ℕ) (upper : Bool) (l : List ℕ)
    → IsBase b
    → v < 2 ^ f
    → read_from b 0 (digits_from f upper b v l) ≡ read_from b v l
unfolding digits_from
digits_from-read zero v b upper l base h = let z : v ≡ 0 = omega arith in rw z refl
digits_from-read (suc f) v b upper l base h = elim (Bool-cases (v == 0)) [
  | inl e ↦ let z : v ≡ 0 = ground arith in rw z refl
  | inr ne ↦
      let (whole, small, less) = split b v base in
      let smaller : v / b < 2 ^ f = omega (arith, h, less) in
      rw
        (
          ne,
          digits_from-read f (v / b) b upper (digit upper (v % b) ∷ l) base smaller,
          digit_value-digit upper (v % b) small,
          whole,
        )
        refl
]

digits_of-read :
    (v b : ℕ) (upper : Bool) → IsBase b → v < 2 ^ 64 → read_from b 0 (digits_of v b upper) ≡ v
unfolding digits_of
digits_of-read v b upper base h = elim (Bool-cases (v == 0)) [
  | inl e ↦ let z : v ≡ 0 = ground arith in rw z (omega arith)
  | inr ne ↦ rw ne (digits_from-read 64 v b upper [] base h)
]

-- A 64-bit word in base 10 or 16 is printed as k times the pad, then digits that read as the word:
-- no padding where the digits fill the width, and the width exactly where there is padding.
pub print_uint_lem :
    (v b : ℕ) (upper : Bool) (width pad : ℕ)
    → IsBase b
    → v < 2 ^ 64
    → (k : ℕ) × (ds : List ℕ) × (print_uint v b upper width pad ≡ replicate k pad ++ ds)
      × (read_from b 0 ds ≡ v)
      × (width ≤ k + length ds)
      × ((k ≡ 0) ⊎ (k + length ds ≡ width))
unfolding print_uint
print_uint_lem v b upper width pad base h =
    let ds = digits_of v b upper in
    (
      width - length ds,
      ds,
      refl,
      digits_of-read v b upper base h,
      omega arith,
      elim (dec_le width (length ds)) [ yes a ↦ inl (omega arith) | no a ↦ inr (omega arith) ],
    )
