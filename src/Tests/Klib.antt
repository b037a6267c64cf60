-- ===== src/Tests/Klib.antt =====
-- lib/string.c on concrete strings.
use sinux.Prelude.{ℕ, ◌≡◌, none, List, [], ◌∷◌, ◌++◌, arith}
use sinux.Klib.Str.{kstrncpy}
use sinux.Klib.Str.Compare.{NonZero}
use sinux.Klib.Str.Copy.{kstrncpy_overruns}

abbrev hi : List ℕ
hi = b'h' ∷ b'i' ∷ []

abbrev ho : List ℕ
ho = b'h' ∷ b'o' ∷ []

hi-NonZero : NonZero hi
hi-NonZero = ((λ e. omega (arith, e)), ((λ e. omega (arith, e)), tt))

ho-NonZero : NonZero ho
ho-NonZero = ((λ e. omega (arith, e)), ((λ e. omega (arith, e)), tt))

kstrncpy_overruns_example : kstrncpy (9 ∷ 9 ∷ 9 ∷ 9 ∷ 9 ∷ []) (hi ++ 0 ∷ []) 2 ≡ none
kstrncpy_overruns_example =
    kstrncpy_overruns 2 hi [] (9 ∷ 9 ∷ 9 ∷ 9 ∷ 9 ∷ []) hi-NonZero (omega arith) (omega arith)
