-- ===== src/Klib/Printk.antt =====
-- lib/printk.c: what `printk` prints, as the list of the bytes that reach the screen. An argument is a
-- word, or a string, NULL if `none`; `none` for the text is a read behind the format's NUL, or an
-- argument that is missing or of the other kind.
pub mod Number
use mathlib.Core.Option
use sinux.Prelude.{
  ℕ, zero, suc, ◌+◌, ◌-◌, ◌*◌, ◌/◌, ◌%◌, ◌^◌, Bool, true, false, ◌&&◌, ◌||◌, Option, none, some,
  List, [], ◌∷◌, ◌++◌, if◌then◌else◌, ltb, leb, ◌==◌, length, replicate,
}

-- `hi[n]` and `lo[n]`
unfoldable pub digit : Bool → ℕ → ℕ
digit upper n = if ltb n 10 then b'0' + n else if upper then 55 + n else 87 + n

-- `while (v)`, over the digits that are in the buffer. The fuel is a bound on the bits of v.
unfoldable pub digits_from : ℕ → Bool → ℕ → ℕ → List ℕ → List ℕ
digits_from zero upper base v l = l
digits_from (suc f) upper base v l =
    let more = digits_from f upper base (v / base) (digit upper (v % base) ∷ l) in
    if v == 0 then l else more

unfoldable pub digits_of : ℕ → ℕ → Bool → List ℕ
digits_of v base upper = if v == 0 then b'0' ∷ [] else digits_from 64 upper base v []

unfoldable pub print_uint : ℕ → ℕ → Bool → ℕ → ℕ → List ℕ
print_uint v base upper width pad =
    let l = digits_of v base upper in replicate (width - length l) pad ++ l

pub data Arg : Type 0 where
  word : ℕ → Arg  -- 64 bits
  str : Option (List ℕ) → Arg

abbrev pub null_text : List ℕ
null_text = b'(' ∷ b'n' ∷ b'u' ∷ b'l' ∷ b'l' ∷ b')' ∷ []

-- A word with its sign bit set is printed with a minus sign.
abbrev pub print_int : ℕ → ℕ → ℕ → List ℕ
print_int v width pad =
    if leb (2 ^ 63) v
    then b'-' ∷ print_uint (2 ^ 64 - v) 10 false width pad
    else print_uint v 10 false width pad

-- What a conversion that takes a word prints.
abbrev pub print_word : ℕ → ℕ → ℕ → ℕ → List ℕ
print_word c v width pad =
    if c == b'd' || c == b'i'
    then print_int v width pad
    else if c == b'u'
    then print_uint v 10 false width pad
    else if c == b'x'
    then print_uint v 16 false width pad
    else if c == b'X'
    then print_uint v 16 true width pad
    else if c == b'p'
    then b'0' ∷ b'x' ∷ print_uint v 16 false 16 b'0'
    else v % 256 ∷ []

abbrev pub takes_word : ℕ → Bool
takes_word c =
    c == b'd' || c == b'i' || c == b'u' || c == b'x' || c == b'X' || c == b'p' || c == b'c'

-- The `switch`: the text, and the arguments left.
unfoldable pub convert : ℕ → ℕ → ℕ → List Arg → Option (List ℕ × List Arg)
convert c width pad [] =
    if takes_word c || c == b's'
    then none
    else if c == b'%'
    then some (b'%' ∷ [], [])
    else some (b'%' ∷ c ∷ [], [])
convert c width pad (word v ∷ l) =
    if takes_word c
    then some (print_word c v width pad, l)
    else if c == b's'
    then none
    else if c == b'%'
    then some (b'%' ∷ [], word v ∷ l)
    else some (b'%' ∷ c ∷ [], word v ∷ l)
convert c width pad (str s ∷ l) =
    if takes_word c
    then none
    else if c == b's'
    then some (elim s [ none ↦ null_text | some t ↦ t ], l)
    else if c == b'%'
    then some (b'%' ∷ [], str s ∷ l)
    else some (b'%' ∷ c ∷ [], str s ∷ l)

-- Where the walk over the format is: in plain text, behind a '%', or in the width behind that.
pub data Place : Type 0 where
  plain flag : Place
  in_width : ℕ → ℕ → Place  -- the pad, and the width so far

abbrev pub add_text : Option (List ℕ × List Arg) → (List Arg → Option (List ℕ)) → Option (List ℕ)
add_text none rest = none
add_text (some (t, l)) rest = Option.map (λ r. t ++ r) (rest l)

abbrev pub is_width : ℕ → Bool
is_width c = leb b'1' c && leb c b'9'

unfoldable pub print_from : Place → List ℕ → List Arg → Option (List ℕ)
print_from plain [] l = some []
print_from flag [] l = none
print_from (in_width pad width) [] l = none
print_from plain (c ∷ s) l =
    let behind = print_from flag s l in
    let rest = Option.map (λ r. c ∷ r) (print_from plain s l) in if c == b'%' then behind else rest
print_from flag (c ∷ s) l =
    let zeros = print_from (in_width b'0' 0) s l in
    let wide = print_from (in_width b' ' (c - b'0')) s l in
    let done = add_text (convert c 0 b' ' l) (print_from plain s) in
    if c == b'0' then zeros else if is_width c then wide else done
print_from (in_width pad width) (c ∷ s) l =
    let wide = print_from (in_width pad (width * 10 + (c - b'0'))) s l in
    let done = add_text (convert c width pad l) (print_from plain s) in
    if is_width c then wide else done

unfoldable pub printk : List ℕ → List Arg → Option (List ℕ)
unfolding print_from
printk fmt args = print_from plain fmt args
